-- ===== src/Splice/Examples.antt =====
-- The theorem about the tear-down at a concrete state: the client has sent two bytes and ended, and the
-- target is closed under the copy that goes back.
use ssheasy.Base.{suc, ◌≤◌, ◌≡◌, ◌≢◌, ◌⊎◌, refl, false, arith}
use ssheasy.Base.Text.{codes}
use ssheasy.Splice.{
  copying, sending, sent, closing_target, closing_accepted, returned, Splice, Step, forth_moves,
  forth_ends, forth_sends, receives, closes_target, started, Reaches, begin, steps,
}
use ssheasy.Splice.Ends.{remaining, CanEnd, CanTear, IsFinished, Reaches-CanTear}

abbrev typed_bytes : Splice
typed_bytes = record started { to_target = codes "ls" }

abbrev at_end : Splice
at_end = record typed_bytes { forth = sending }

abbrev told_end : Splice
told_end = record typed_bytes { forth = sent; buffered = 1 }

abbrev heard : Splice
heard = record typed_bytes { forth = sent; main = closing_target; buffered = 0 }

abbrev cut_off : Splice
cut_off = record typed_bytes { forth = sent; main = closing_accepted; buffered = 0 }

cut_off-Reaches : Reaches cut_off
cut_off-Reaches =
    steps heard cut_off
      (steps told_end heard
        (steps at_end told_end
          (steps typed_bytes at_end
            (steps started typed_bytes begin (forth_moves started (codes "ls") refl refl))
            (forth_ends typed_bytes refl))
          (forth_sends at_end refl (omega arith)))
        (receives told_end 0 refl refl))
      (closes_target heard refl)

Reaches-CanTear_example :
    ((sent ≢ copying) ⊎ (copying ≢ copying) → closing_accepted ≢ returned → CanTear cut_off)
    × (closing_accepted ≡ returned → CanEnd cut_off ⊎ IsFinished cut_off)
    × (false ≡ false
        → (remaining cut_off ≤ 5)
          × ((c' : Splice) → Step cut_off c' → remaining cut_off ≡ suc (remaining c')))
Reaches-CanTear_example = Reaches-CanTear cut_off cut_off-Reaches
