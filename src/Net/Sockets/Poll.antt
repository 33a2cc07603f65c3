-- ===== src/Net/Sockets/Poll.antt =====
-- What the poll is asked and what it holds agree.
use rskynet.Base.{
  ℕ, ◌≡◌, refl, sym, ap, subst, ◌∙◌, Bool, true, false, true_ne_false, Option, none, some,
  Bool-cases, inl, inr,
}
use rskynet.Net.Sockets.{
  Socket, Interest, readable, writing, both, same_interest, Registry, settle, desired, apply,
}

-- What the poll says of its registry: a call that succeeds sets the interest of its token, and no
-- other one, where `held` is the interest that the poll has for a token.
pub record IsRegistry {R : Type 0} (registry : Registry R) (held : R → ℕ → Option Interest)
    : Type 0 where
  pub registers :
      (token : ℕ) (want : Interest) (r : R)
      → held r token ≡ none
      → (registry.register token want r).0 ≡ true
      → held (registry.register token want r).1 token ≡ some want
  pub reregisters :
      (token : ℕ) (want have : Interest) (r : R)
      → held r token ≡ some have
      → (registry.reregister token want r).0 ≡ true
      → held (registry.reregister token want r).1 token ≡ some want
  pub deregisters :
      (token : ℕ) (have : Interest) (r : R)
      → held r token ≡ some have
      → (registry.deregister token r).0 ≡ true
      → held (registry.deregister token r).1 token ≡ none

same_interest-true : (a b : Interest) → same_interest a b ≡ true → a ≡ b
same_interest-true readable readable e = refl
same_interest-true writing writing e = refl
same_interest-true both both e = refl
same_interest-true readable writing e = absurd (true_ne_false (sym e))
same_interest-true readable both e = absurd (true_ne_false (sym e))
same_interest-true writing readable e = absurd (true_ne_false (sym e))
same_interest-true writing both e = absurd (true_ne_false (sym e))
same_interest-true both readable e = absurd (true_ne_false (sym e))
same_interest-true both writing e = absurd (true_ne_false (sym e))

same_interest_self : (a : Interest) → same_interest a a ≡ true
same_interest_self readable = refl
same_interest_self writing = refl
same_interest_self both = refl

module _ {R : Type 0} (registry : Registry R) (held : R → ℕ → Option Interest) where
  settle-held :
      (token : ℕ) (want have : Option Interest) (r : R)
      → IsRegistry registry held
      → held r token ≡ have
      → (settle registry token want have r).0 ≡ true
      → held (settle registry token want have r).1 token ≡ want
  settle-held token (some w) none r law e ok = law.registers token w r e ok
  settle-held token (some w) (some h) r law e ok = elim (Bool-cases (same_interest w h)) [
    | inl same ↦ rw same (e ∙ ap some (sym (same_interest-true w h same)))
    | inr other ↦ rw other (law.reregisters token w h r e (rw other at ok))
  ]
  settle-held token none (some h) r law e ok = law.deregisters token h r e ok
  settle-held token none none r law e ok = e

settle_again :
    {R : Type 0} (registry : Registry R) (token : ℕ) (want : Option Interest) (r : R)
    → settle registry token want want r ≡ (true, r)
settle_again registry token (some w) r = rw (same_interest_self w) refl
settle_again registry token none r = refl

module _ {Kind Addr R : Type 0} (registry : Registry R) (held : R → ℕ → Option Interest) where
  -- If the poll has the interest that the socket remembers, and the registry call of `apply`, if there
  -- is one, succeeds: the poll and the socket then have the interest that the socket's state asks
  -- for, and a second `apply` changes nothing.
  pub apply-held :
      (s t : Socket Kind Addr) (r after : R)
      → IsRegistry registry held
      → held r s.slot ≡ s.interest
      → apply registry s r ≡ (true, t, after)
      → (t.interest ≡ desired t)
        × (held after t.slot ≡ t.interest)
        × (apply registry t after ≡ (true, t, after))
  unfolding apply desired
  apply-held s t r after law e done =
      elim (Bool-cases (settle registry s.slot (desired s) s.interest r).0) [
        | inl ok ↦
            let here : apply registry s r ≡ (true, settled, now) = rw (apply, ok) refl in
            subst Goal (sym here ∙ done) (
              refl,
              settle-held registry held s.slot (desired s) s.interest r law e ok,
              rw (apply, settle_again registry s.slot (desired s) now) refl,
            )
        | inr failed ↦
            let here : apply registry s r ≡ (false, s, now) = rw (apply, failed) refl in
            absurd (true_ne_false (ap (λ (x : Bool × Socket Kind Addr × R). x.0) (sym done ∙ here)))
      ]
    where
      now : R
      now = (settle registry s.slot (desired s) s.interest r).1

      settled : Socket Kind Addr
      settled = record s { interest = desired s }

      Goal : Bool × Socket Kind Addr × R → Type 0
      Goal (ok, u, q) =
          (u.interest ≡ desired u)
          × (held q u.slot ≡ u.interest)
          × (apply registry u q ≡ (true, u, q))
