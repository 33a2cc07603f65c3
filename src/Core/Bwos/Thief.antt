-- ===== src/Core/Bwos/Thief.antt =====
-- The thieves' end of a block: a value is taken once, and only in the generation that was seen.
use rskynet.Base.{
  ℕ, ◌+◌, ◌≤◌, ◌≡◌, ◌≢◌, refl, sym, ap, ◌∙◌, arith, false, Bool-cases, inl, inr, Option, none, some,
  some_inj, some_ne_none, ◌==◌,
}
use rskynet.Core.Bwos.{
  Block, empty, slot_of, generation_of, pack, steal_look, steal_claim, reclaim, grant,
  max_generation,
}

generation-pack : (g : ℕ) → g ≤ max_generation → generation_of (pack g) ≡ g
generation-pack g small = omega arith

module _ {T : Type 0} where
  -- Of the thieves that saw the same position one takes it: it gets the value of that slot, the
  -- count of finished thefts goes up by one, and every later attempt at the position conflicts.
  pub claimed_once :
      (spos : ℕ) (b c : Block T) (v : Option T)
      → steal_claim spos b ≡ some (v, c)
      → (v ≡ b.ring (slot_of spos))
        × (c.steal_count ≡ b.steal_count + 1)
        × (steal_claim spos c ≡ none)
  unfolding steal_claim
  claimed_once spos b c v e = elim (Bool-cases (b.steal_tail == spos)) [
    | inr miss ↦ absurd (some_ne_none (sym e ∙ (rw (steal_claim, miss) refl)))
    | inl hit ↦ stolen ((rw (steal_claim, hit) refl) ∙ e)
  ]
    where
      taken : Block T
      taken = record b { steal_tail = spos + 1; steal_count = b.steal_count + 1 }

      again : steal_claim spos taken ≡ none
      again =
          let moved : ((spos + 1) == spos) ≡ false = ground arith in rw (steal_claim, moved) refl

      stolen :
          ◌≡◌ {A = Option (Option T × Block T)} (some (b.ring (slot_of spos), taken)) (some (v, c))
          → (v ≡ b.ring (slot_of spos))
            × (c.steal_count ≡ b.steal_count + 1)
            × (steal_claim spos c ≡ none)
      stolen q =
          let same : c ≡ taken = sym (ap (λ (x : Option T × Block T). x.1) (some_inj q)) in
          (
            sym (ap (λ (x : Option T × Block T). x.0) (some_inj q)),
            ap (λ (x : Block T). x.steal_count) same,
            ap (steal_claim spos) same ∙ again,
          )

  head-reclaim : (g : ℕ) (b c : Block T) → reclaim g b ≡ some c → c.head ≡ pack g
  unfolding reclaim
  head-reclaim g b c e = elim (Bool-cases (b.steal_count == slot_of b.head)) [
    | inr busy ↦ absurd (some_ne_none (sym e ∙ (rw (reclaim, busy) refl)))
    | inl calm ↦ fresh ((rw (reclaim, calm) refl) ∙ e)
  ]
    where
      fresh :
          some (record b {
            head = pack g;
            tail = 0;
            steal_tail = pack g + b.block_size;
            steal_count = 0;
          })
            ≡ some c
          → c.head ≡ pack g
      fresh q = ap (λ (x : Block T). x.head) (sym (some_inj q))

  -- After a block was reclaimed for generation `g` and granted, a thief that comes for another
  -- generation finds nothing, and an exchange that was prepared in another generation conflicts,
  -- whatever the owner put into the block in between.
  pub stale_thief :
      (g old spos : ℕ) (b c d : Block T)
      → g ≤ max_generation
      → reclaim g b ≡ some c
      → d.head ≡ c.head
      → old ≢ g
      → generation_of spos ≢ g
      → (steal_look old (grant d) ≡ empty) × (steal_claim spos (grant d) ≡ none)
  unfolding reclaim grant steal_look steal_claim
  stale_thief g old spos b c d small e same other stale =
      let at : generation_of d.head ≡ g =
        ap generation_of (same ∙ head-reclaim g b c e) ∙ generation-pack g small in
      let other_one : (generation_of d.head == old) ≡ false = ground arith in
      let moved : d.head ≢ spos = λ q. stale (sym (ap generation_of q) ∙ at) in
      let apart : (d.head == spos) ≡ false = ground arith in
      (rw (steal_look, grant, other_one) refl, rw (steal_claim, grant, apart) refl)
