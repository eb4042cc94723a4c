-- ===== src/Splice/Ends.antt =====
-- The tear-down of two copies: no goroutine is left behind.
use ssheasy.Base.{
  ℕ, zero, suc, ◌+◌, ◌<◌, ◌≤◌, false, false≢true, ◌≡◌, ◌≢◌, refl, sym, ap, ◌∙◌, ◌⊎◌, inl, inr,
  arith,
}
use ssheasy.Splice.{
  Phase, copying, sending, sent, Main, waiting, closing_target, closing_accepted, returned, Splice,
  is_open, Step, forth_moves, back_moves, forth_ends, back_ends, forth_sends, back_sends, receives,
  closes_target, closes_accepted, Reaches, begin, steps,
}

-- The values that a goroutine has sent, and those that the function has received.
abbrev sends : Phase → ℕ
sends copying = 0
sends sending = 0
sends sent = 1

abbrev takes : Main → ℕ
takes waiting = 0
takes closing_target = 1
takes closing_accepted = 1
takes returned = 1

-- The channel holds what was sent and not received.
abbrev IsCounted : Splice → Type 0
IsCounted c = c.buffered + takes c.main ≡ sends c.forth + sends c.back

Step-IsCounted : (c c' : Splice) → Step c c' → IsCounted c → IsCounted c'
Step-IsCounted _ _ (forth_moves c b p o) h = h
Step-IsCounted _ _ (back_moves c b p o) h = h
Step-IsCounted _ _ (forth_ends c p) h = omega (arith, h, ap sends p)
Step-IsCounted _ _ (back_ends c p) h = omega (arith, h, ap sends p)
Step-IsCounted _ _ (forth_sends c p l) h = omega (arith, h, ap sends p)
Step-IsCounted _ _ (back_sends c p l) h = omega (arith, h, ap sends p)
Step-IsCounted _ _ (receives c n p e) h = omega (arith, h, ap takes p, e)
Step-IsCounted _ _ (closes_target c p) h = omega (arith, h, ap takes p)
Step-IsCounted _ _ (closes_accepted c p) h = omega (arith, h, ap takes p)

Reaches-IsCounted : (c : Splice) → Reaches c → IsCounted c
Reaches-IsCounted _ begin = omega arith
Reaches-IsCounted _ (steps c c' r s) = Step-IsCounted c c' s (Reaches-IsCounted c r)

abbrev left : Phase → ℕ
left copying = 2
left sending = 1
left sent = 0

abbrev main_left : Main → ℕ
main_left waiting = 3
main_left closing_target = 2
main_left closing_accepted = 1
main_left returned = 0

-- The steps to the end, but for the bytes that are still moved.
abbrev pub remaining : Splice → ℕ
remaining c = left c.forth + left c.back + main_left c.main

-- The goroutines in io.Copy.
abbrev in_copy : Phase → ℕ
in_copy copying = 1
in_copy sending = 0
in_copy sent = 0

abbrev pub at_work : Splice → ℕ
at_work c = in_copy c.forth + in_copy c.back

-- A step that comes closer to the end.
abbrev pub CanEnd : Splice → Type 0
CanEnd c = (c' : Splice) × Step c c' × (remaining c ≡ suc (remaining c'))

-- Such a step that does not wait for an io.Copy to end.
abbrev pub CanTear : Splice → Type 0
CanTear c =
    (c' : Splice) × Step c c' × (remaining c ≡ suc (remaining c')) × (at_work c' ≡ at_work c)

abbrev pub IsFinished : Splice → Type 0
IsFinished c = (c.forth ≡ sent) × (c.back ≡ sent) × (c.main ≡ returned)

-- With the target closed, every step comes closer to the end.
Step-remaining :
    (c c' : Splice) → Step c c' → is_open c.main ≡ false → remaining c ≡ suc (remaining c')
Step-remaining _ _ (forth_moves c b p o) f = absurd (false≢true (sym f ∙ o))
Step-remaining _ _ (back_moves c b p o) f = absurd (false≢true (sym f ∙ o))
Step-remaining _ _ (forth_ends c p) f = omega (arith, ap left p)
Step-remaining _ _ (back_ends c p) f = omega (arith, ap left p)
Step-remaining _ _ (forth_sends c p l) f = omega (arith, ap left p)
Step-remaining _ _ (back_sends c p l) f = omega (arith, ap left p)
Step-remaining _ _ (receives c n p e) f = omega (arith, ap main_left p)
Step-remaining _ _ (closes_target c p) f = omega (arith, ap main_left p)
Step-remaining _ _ (closes_accepted c p) f = omega (arith, ap main_left p)

sends_at_most : (p : Phase) → sends p ≤ 1
sends_at_most copying = omega arith
sends_at_most sending = omega arith
sends_at_most sent = omega arith

forth_tears : (c : Splice) → IsCounted c → c.forth ≡ sending → CanTear c
forth_tears c h e = (
  record c { forth = sent; buffered = suc c.buffered },
  forth_sends c e (omega (arith, h, ap sends e, sends_at_most c.back)),
  omega (arith, ap left e),
  omega (arith, ap in_copy e),
)

back_tears : (c : Splice) → IsCounted c → c.back ≡ sending → CanTear c
back_tears c h e = (
  record c { back = sent; buffered = suc c.buffered },
  back_sends c e (omega (arith, h, ap sends e, sends_at_most c.forth)),
  omega (arith, ap left e),
  omega (arith, ap in_copy e),
)

receives_some : (c : Splice) (n : ℕ) → c.main ≡ waiting → c.buffered ≡ n → 0 < n → CanTear c
receives_some c zero w e l = absurd (omega arith)
receives_some c (suc n) w e l = (
  record c { main = closing_target; buffered = n },
  receives c n w e,
  omega (arith, ap main_left w),
  refl,
)

-- In front of `<-done`, with a goroutine out of io.Copy.
waiting_tears :
    (c : Splice) (p q : Phase)
    → IsCounted c
    → c.main ≡ waiting
    → c.forth ≡ p
    → c.back ≡ q
    → (p ≢ copying) ⊎ (q ≢ copying)
    → CanTear c
waiting_tears c sending q h w e e' o = forth_tears c h e
waiting_tears c sent q h w e e' o =
    receives_some c c.buffered w refl (omega (arith, h, ap takes w, ap sends e))
waiting_tears c copying sending h w e e' o = back_tears c h e'
waiting_tears c copying sent h w e e' o =
    receives_some c c.buffered w refl (omega (arith, h, ap takes w, ap sends e'))
waiting_tears c copying copying h w e e' (inl n) = absurd (n refl)
waiting_tears c copying copying h w e e' (inr n) = absurd (n refl)

main_tears :
    (c : Splice) (m : Main)
    → IsCounted c
    → (c.forth ≢ copying) ⊎ (c.back ≢ copying)
    → c.main ≡ m
    → m ≢ returned
    → CanTear c
main_tears c waiting h o w n = waiting_tears c c.forth c.back h w refl refl o
main_tears c closing_target h o w n =
    (record c { main = closing_accepted }, closes_target c w, omega (arith, ap main_left w), refl)
main_tears c closing_accepted h o w n =
    (record c { main = returned }, closes_accepted c w, omega (arith, ap main_left w), refl)
main_tears c returned h o w n = absurd (n refl)

weaker : (c : Splice) → CanTear c → CanEnd c
weaker c (c', s, e, _) = (c', s, e)

-- Behind both calls of Close.
forth_goes : (c : Splice) (p : Phase) → IsCounted c → c.forth ≡ p → CanEnd c ⊎ (c.forth ≡ sent)
forth_goes c copying h e =
    inl (record c { forth = sending }, forth_ends c e, omega (arith, ap left e))
forth_goes c sending h e = inl (weaker c (forth_tears c h e))
forth_goes c sent h e = inr e

back_goes : (c : Splice) (p : Phase) → IsCounted c → c.back ≡ p → CanEnd c ⊎ (c.back ≡ sent)
back_goes c copying h e = inl (record c { back = sending }, back_ends c e, omega (arith, ap left e))
back_goes c sending h e = inl (weaker c (back_tears c h e))
back_goes c sent h e = inr e

all_gone :
    (c : Splice)
    → CanEnd c ⊎ (c.forth ≡ sent)
    → CanEnd c ⊎ (c.back ≡ sent)
    → c.main ≡ returned
    → CanEnd c ⊎ IsFinished c
all_gone c (inl s) b m = inl s
all_gone c (inr f) (inl s) m = inl s
all_gone c (inr f) (inr b) m = inr (f, b, m)

left_at_most : (p : Phase) → left p ≤ 2
left_at_most copying = omega arith
left_at_most sending = omega arith
left_at_most sent = omega arith

main_left_closed : (m : Main) → is_open m ≡ false → main_left m ≤ 1
main_left_closed waiting f = absurd (false≢true (sym f))
main_left_closed closing_target f = absurd (false≢true (sym f))
main_left_closed closing_accepted f = omega arith
main_left_closed returned f = omega arith

-- In every reachable state: once one goroutine is out of io.Copy, the tear-down goes on up to both calls
-- of Close without the end of the other one; behind them, with both connections
-- closed, a step is left until both goroutines have ended; and once the target is closed, at most five
-- steps are left, whatever their order.
pub Reaches-CanTear :
    (c : Splice)
    → Reaches c
    → ((c.forth ≢ copying) ⊎ (c.back ≢ copying) → c.main ≢ returned → CanTear c)
      × (c.main ≡ returned → CanEnd c ⊎ IsFinished c)
      × (is_open c.main ≡ false
          → (remaining c ≤ 5) × ((c' : Splice) → Step c c' → remaining c ≡ suc (remaining c')))
Reaches-CanTear c r =
    let h = Reaches-IsCounted c r in
    (
      λ o n. main_tears c c.main h o refl n,
      λ m. all_gone c (forth_goes c c.forth h refl) (back_goes c c.back h refl) m,
      λ f. (
        omega (arith, left_at_most c.forth, left_at_most c.back, main_left_closed c.main f),
        λ c' s. Step-remaining c c' s f,
      ),
    )
