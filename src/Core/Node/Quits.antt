-- ===== src/Core/Node/Quits.antt =====
-- A node that has started stops with its last ordinary service, and then launches no other.
use rskynet.Base.{
  ℕ, zero, suc, ◌+◌, ◌-◌, ◌≡◌, refl, sym, ap, subst, ◌∙◌, arith, Bool, true, false, true_ne_false,
  Bool-cases, ◌&&◌, List, [], ◌∷◌, ◌++◌, some, some_inj, some_ne_none, ◌==◌, if◌then◌else◌,
  get_elem?, set, length, length-set, inl, inr,
}
use rskynet.Core.Node.{
  Stage, alive, destroying, gone, NodeService, Node, new, set_quit_locked, launch, mark_booted,
  swap_destroyed, settle_total, Step, launches, boots, quits, marks, settles, Reachable, begins,
  then_steps,
}

-- The ordinary services whose `destroy` has not returned.
abbrev weigh : Bool → Stage → ℕ
weigh true stage = 0
weigh false alive = 1
weigh false destroying = 1
weigh false gone = 0

abbrev pub ordinary : List NodeService → ℕ
ordinary [] = 0
ordinary (s ∷ ss) = weigh s.reserved s.stage + ordinary ss

ordinary-snoc :
    (ss : List NodeService) (s : NodeService)
    → ordinary (ss ++ s ∷ []) ≡ ordinary ss + weigh s.reserved s.stage
ordinary-snoc [] s = omega arith
ordinary-snoc (x ∷ ss) s = omega (arith, ordinary-snoc ss s)

ordinary-set :
    (ss : List NodeService) (i : ℕ) (s t : NodeService)
    → get_elem? ss i ≡ some s
    → ordinary (set ss i t) + weigh s.reserved s.stage ≡ ordinary ss + weigh t.reserved t.stage
ordinary-set [] i s t e = absurd (some_ne_none (sym e))
ordinary-set (x ∷ ss) zero s t e =
    omega (arith, ap (λ (y : NodeService). weigh y.reserved y.stage) (some_inj e))
ordinary-set (x ∷ ss) (suc i) s t e = omega (arith, ordinary-set ss i s t e)

record IsSound (n : Node) : Type 0 where
  counted : n.total ≡ ordinary n.services
  stops : n.booted ≡ true → n.total ≡ 0 → n.quit ≡ true

new-IsSound : IsSound new
unfolding new
new-IsSound = record { counted = refl; stops = λ e z. absurd (true_ne_false (sym e)) }

set_quit_locked-fields :
    (n : Node)
    → ((set_quit_locked n).1.total ≡ n.total)
      × ((set_quit_locked n).1.services ≡ n.services)
      × ((set_quit_locked n).1.quit ≡ true)
unfolding set_quit_locked
set_quit_locked-fields n = elim (Bool-cases n.quit) [
  | inl on ↦ rw (set_quit_locked, on) (refl, refl, refl)
  | inr off ↦ rw (set_quit_locked, off) (refl, refl, refl)
]

quit-IsSound : (n : Node) → n.total ≡ ordinary n.services → IsSound (set_quit_locked n).1
quit-IsSound n e =
    let (a, b, c) = set_quit_locked-fields n in
    record { counted = a ∙ e ∙ ap ordinary (sym b); stops = λ x y. c }

launch-IsSound : (n m : Node) (reserved : Bool) → launch reserved n ≡ some m → IsSound n → IsSound m
unfolding launch
launch-IsSound n m reserved e v = elim (Bool-cases n.quit) [
  | inl on ↦ absurd (some_ne_none (sym e ∙ (rw (launch, on) refl)))
  | inr off ↦ go reserved off (some_inj (rw (launch, off) at e))
]
  where
    go :
        (b : Bool)
        → n.quit ≡ false
        → ◌≡◌ {A = Node}
            (record n {
              quit = false;
              total = if b then n.total else n.total + 1;
              services = n.services ++ record { reserved = b; stage = alive } ∷ [];
            })
            m
        → IsSound m
    go true off q = subst IsSound q (record {
      counted =
          omega (
            arith,
            v.counted,
            ordinary-snoc n.services (record { reserved = true; stage = alive }),
          );
      stops = λ x y. absurd (true_ne_false (sym (v.stops x y) ∙ off));
    })
    go false off q = subst IsSound q (record {
      counted =
          omega (
            arith,
            v.counted,
            ordinary-snoc n.services (record { reserved = false; stage = alive }),
          );
      stops = λ x y. absurd (omega arith);
    })

boots-IsSound : (n : Node) → IsSound n → IsSound (mark_booted n).1
unfolding mark_booted
boots-IsSound n v = elim (Bool-cases (n.total == 0)) [
  | inl z ↦ rw (mark_booted, z) (quit-IsSound (record n { booted = true }) v.counted)
  | inr nz ↦
      rw (mark_booted, nz) (record { counted = v.counted; stops = λ x y. absurd (ground arith) })
]

mark-IsSound :
    (n : Node) (i : ℕ) (s : NodeService)
    → get_elem? n.services i ≡ some s
    → IsSound n
    → IsSound (swap_destroyed i s n).1
unfolding swap_destroyed
mark-IsSound n i s at v = go s.stage refl
  where
    same : (b : Bool) → weigh b destroying ≡ weigh b alive
    same true = refl
    same false = refl

    go : (stage : Stage) → s.stage ≡ stage → IsSound (swap_destroyed i s n).1
    go alive e =
        let marked : (swap_destroyed i s n).1
            ≡ record n { services = set n.services i (record s { stage = destroying }) } =
          rw (swap_destroyed, e) refl in
        subst IsSound (sym marked) (record {
          counted = omega (
            arith,
            v.counted,
            ordinary-set n.services i s (record s { stage = destroying }) at,
            ap (weigh s.reserved) e,
            same s.reserved,
          );
          stops = v.stops;
        })
    go destroying e = rw (swap_destroyed, e) v
    go gone e = rw (swap_destroyed, e) v

settle-IsSound :
    (b : Bool) (n : Node) (rest : List NodeService)
    → n.total ≡ ordinary rest + weigh b destroying
    → (n.booted ≡ true → n.total ≡ 0 → n.quit ≡ true)
    → IsSound (record (settle_total b n).1 { services = rest })
unfolding settle_total
settle-IsSound true n rest e stops = record { counted = omega (arith, e); stops = stops }
settle-IsSound false n rest e stops = elim (Bool-cases (n.total == 1 && n.booted)) [
  | inl last ↦
      let (a, b, c) = set_quit_locked-fields (record n { total = n.total - 1 }) in
      rw last (record { counted = omega (arith, a, e); stops = λ x y. c })
  | inr more ↦
      rw more (record { counted = omega (arith, e); stops = λ x y. absurd (ground (arith, e)) })
]

nothing : (b : Bool) → weigh b gone ≡ 0
nothing true = refl
nothing false = refl

Step-IsSound : (n m : Node) → Step n m → IsSound n → IsSound m
Step-IsSound n m (launches _ _ reserved e) v = launch-IsSound n m reserved e v
Step-IsSound n _ (boots _) v = boots-IsSound n v
Step-IsSound n _ (quits _) v = quit-IsSound n v.counted
Step-IsSound n _ (marks _ i s at) v = mark-IsSound n i s at v
Step-IsSound n _ (settles _ i s at stage) v =
    settle-IsSound s.reserved n (set n.services i (record s { stage = gone }))
      (omega (
        arith,
        v.counted,
        ordinary-set n.services i s (record s { stage = gone }) at,
        ap (weigh s.reserved) stage,
        nothing s.reserved,
      ))
      v.stops

Reachable-IsSound : (n : Node) → Reachable n → IsSound n
Reachable-IsSound _ begins = new-IsSound
Reachable-IsSound _ (then_steps n m r e) = Step-IsSound n m e (Reachable-IsSound n r)

-- However launches, stops and destructions interleave: the count of the node is the number of its
-- ordinary services whose `destroy` has not returned; and once the node has booted and none is left,
-- it has stopped.
pub last_service_stops :
    (n : Node)
    → Reachable n
    → (n.total ≡ ordinary n.services) × (n.booted ≡ true → ordinary n.services ≡ 0 → n.quit ≡ true)
last_service_stops n r =
    let v = Reachable-IsSound n r in (v.counted, λ b z. v.stops b (v.counted ∙ z))

mark_stays :
    (i : ℕ) (s : NodeService) (n : Node)
    → n.quit ≡ true
    → ((swap_destroyed i s n).1.quit ≡ true)
      × (length (swap_destroyed i s n).1.services ≡ length n.services)
unfolding swap_destroyed
mark_stays i s n on = go s.stage refl
  where
    go :
        (stage : Stage)
        → s.stage ≡ stage
        → ((swap_destroyed i s n).1.quit ≡ true)
          × (length (swap_destroyed i s n).1.services ≡ length n.services)
    go alive e = rw (swap_destroyed, e) (on, length-set n.services i _)
    go destroying e = rw (swap_destroyed, e) (on, refl)
    go gone e = rw (swap_destroyed, e) (on, refl)

settle_stays : (b : Bool) (n : Node) → n.quit ≡ true → (settle_total b n).1.quit ≡ true
unfolding settle_total
settle_stays true n on = on
settle_stays false n on = elim (Bool-cases (n.total == 1 && n.booted)) [
  | inl last ↦
      let (a, b, c) = set_quit_locked-fields (record n { total = n.total - 1 }) in rw last c
  | inr more ↦ rw more on
]

-- A node that has stopped stays so, and no step of any thread launches another service.
pub stopped_stays :
    (n m : Node)
    → Step n m
    → n.quit ≡ true
    → (m.quit ≡ true) × (length m.services ≡ length n.services)
unfolding launch mark_booted swap_destroyed settle_total
stopped_stays n m (launches _ _ reserved e) on =
    absurd (some_ne_none (sym e ∙ (rw (launch, on) refl)))
stopped_stays n _ (boots _) on = elim (Bool-cases (n.total == 0)) [
  | inl z ↦
      let (a, b, c) = set_quit_locked-fields (record n { booted = true }) in
      rw (mark_booted, z) (c, ap length b)
  | inr nz ↦ rw (mark_booted, nz) (on, refl)
]
stopped_stays n _ (quits _) on = let (a, b, c) = set_quit_locked-fields n in (c, ap length b)
stopped_stays n _ (marks _ i s at) on = mark_stays i s n on
stopped_stays n _ (settles _ i s at stage) on =
    (settle_stays s.reserved n on, length-set n.services i _)
