-- ===== src/Core/Bwos/Examples.antt =====
-- Runs of a block, and the theorems on them.
use rskynet.Base.{
  ℕ, ◌+◌, ◌≡◌, refl, arith, true, Option, none, some, Bool-cases, inl, inr, if◌then◌else◌, ◌==◌,
}
use rskynet.Core.Bwos.Queue.{
  LifoQueue, Pushed, ends, and_then, granted, push_back, push_loop, advance_put_index,
  next_sequence, steal_front, steal_loop,
}
use rskynet.Core.Bwos.Advance.{AllSized}
use rskynet.Core.Bwos.Lifo.{Keeps, push_back-pop_back}
use rskynet.Core.Bwos.{
  Block, empty, claims, new, put, steal_look, steal_claim, reclaim, grant, is_writable,
}
use rskynet.Core.Bwos.Thief.{stale_thief}

-- A block of four slots in generation 3, with two values.
abbrev used : Block ℕ
used = record {
  head = 768;
  tail = 2;
  steal_count = 0;
  steal_tail = 772;
  block_size = 4;
  ring = λ i. some (10 + i);
}

-- The same when the owner has left it.
abbrev left : Block ℕ
left = record used { head = 772; steal_tail = 768 }

unused_is_writable : is_writable 0 (new {T = ℕ} 4) ≡ true
unfolding is_writable new
unused_is_writable = refl

looks : steal_look 3 left ≡ claims 768
unfolding steal_look
looks = refl

abbrev robbed : Block ℕ
robbed = record left { steal_tail = 769; steal_count = 1 }

claims_first : steal_claim 768 left ≡ some (some 10, robbed)
unfolding steal_claim
claims_first = refl

-- All four values of generation 3 were stolen, and generation 4 takes the block.
abbrev emptied : Block ℕ
emptied = record left { steal_tail = 772; steal_count = 4 }

abbrev fresh : Block ℕ
fresh = record emptied { head = 1024; tail = 0; steal_tail = 1028; steal_count = 0 }

reclaims : reclaim 4 emptied ≡ some fresh
unfolding reclaim
reclaims = refl

stale_thief_example : (steal_look 3 (grant fresh) ≡ empty) × (steal_claim 769 (grant fresh) ≡ none)
stale_thief_example =
    stale_thief 4 3 769 emptied fresh fresh (omega arith) reclaims refl (λ e. absurd (omega arith))
      (λ e. absurd (omega arith))

-- Two blocks of two slots: the first is the owner's, the second was never used.
abbrev two_blocks : LifoQueue ℕ
two_blocks = record {
  last_block = 0;
  start_block = 0;
  blocks = λ i.
      if i == 0
      then record {
        head = 0;
        tail = 2;
        steal_count = 0;
        steal_tail = 2;
        ring = λ k. some (5 + k);
        block_size = 2;
      }
      else new 2;
  block_shift = 1;
}

next_block_is_entered :
    and_then {B = Pushed × Option ℕ}
      (push_back 9 two_blocks)
      (λ x. and_then (steal_front x.1) (λ y. ends (x.0, y.0)))
    ≡ ends (granted, some 5)
unfolding push_back push_loop advance_put_index next_sequence steal_front steal_loop put is_writable
    reclaim grant new steal_look steal_claim
next_block_is_entered = refl

two_blocks-AllSized : AllSized two_blocks
unfolding new
two_blocks-AllSized i = elim (Bool-cases (i == 0)) [
  | inl on ↦ rw on (omega arith)
  | inr off ↦ rw off (omega arith)
]

push_back-pop_back_example : Keeps 9 two_blocks (push_back 9 two_blocks)
push_back-pop_back_example = push_back-pop_back 9 two_blocks (omega arith) two_blocks-AllSized
