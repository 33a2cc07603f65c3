-- ===== src/Core/Monitor/Examples.antt =====
-- A watcher that reads while a worker begins.
use rskynet.Base.{◌≡◌, refl, arith, Occurs, some, ◌∷◌}
use rskynet.Core.Monitor.{
  System, start, Reachable, begins, then_steps, opens, stores_source, stores_destination, closes,
  reads_seq, reads_source, reads_destination, accepts, calm, opened, half, full, has_seq,
  has_source, has_both, returns, new, begin, check, bump_seq, store_source, store_destination,
}
use rskynet.Core.Monitor.Route.{routes_are_whole}

abbrev s1 : System
s1 = record start { shared = bump_seq new; writer = opened 3 4; bumps = 1 }

abbrev s2 : System
s2 = record s1 { shared = store_source 3 s1.shared; writer = half 3 4 }

abbrev s3 : System
s3 = record s2 { shared = store_destination 4 s2.shared; writer = full 3 4 }

abbrev s4 : System
s4 = record s3 {
  shared = bump_seq s3.shared;
  writer = calm;
  published = (3, 4) ∷ s3.published;
  bumps = 2;
}

abbrev s5 : System
s5 = record s4 { reader = has_seq 2 }

abbrev s6 : System
s6 = record s5 { reader = has_source 2 3 }

abbrev s7 : System
s7 = record s6 { reader = has_both 2 3 4 }

abbrev s8 : System
s8 = record s7 { reader = returns 3 4 }

s4-Reachable : Reachable s4
unfolding new
s4-Reachable =
    then_steps s3 s4
      (then_steps s2 s3
        (then_steps s1 s2 (then_steps start s1 begins (opens start 3 4 refl))
          (stores_source s1 3 4 refl))
        (stores_destination s2 3 4 refl))
      (closes s3 3 4 refl)

s8-Reachable : Reachable s8
unfolding new
s8-Reachable =
    then_steps s7 s8
      (then_steps s6 s7
        (then_steps s5 s6 (then_steps s4 s5 s4-Reachable (reads_seq s4 refl refl))
          (reads_source s5 2 refl))
        (reads_destination s6 2 3 refl))
      (accepts s7 2 3 4 refl refl)

routes_are_whole_example : Occurs (3, 4) s8.published
routes_are_whole_example = routes_are_whole s8 3 4 s8-Reachable (omega arith) refl

-- The second look at the same poll reports it.
stuck : (check (check (begin 3 4 new)).1).0 ≡ some (3, 4, 1)
unfolding begin new check
stuck = refl
