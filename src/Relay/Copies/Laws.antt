-- ===== src/Relay/Copies/Laws.antt =====
-- What the two copies of handleWss report, send and leave behind.
use ssheasy.Base.{
  ℕ, Bool-cases, ◌+◌, ◌≤◌, Bool, true, ◌≡◌, refl, sym, ◌∙◌, subst, ◌⊎◌, inl, inr, List, [], ◌∷◌,
  ◌++◌, Option, some, arith, length, take, append-nil, length-append, length-take,
}
use ssheasy.Base.Int.{ℤ, pos, ltb_ℤ}
use ssheasy.Base.Text.{Bytes}
use ssheasy.Traffic.{wait_n, write, limited_write}
use ssheasy.Traffic.Laws.{waited, waited-append}
use ssheasy.Relay.Copies.{
  Dir, up, down, ConStat, Phase, copying, closing, told, Side, chunk_len, receive, CopyStep, moves,
  write_ends, read_ends, read_fails, closes, is_open, Copies, conn_stat, Step, up_copies,
  down_copies, up_tells, down_tells, started, Runs, stays, then_step, copied, audit_message,
}

abbrev in_phase : Dir → Phase → Side → List ConStat
in_phase d (told e) x = conn_stat d e x ∷ []
in_phase d p x = []

-- What a goroutine has reported.
abbrev reports : Dir → Side → List ConStat
reports d x = in_phase d x.phase x

copying-reports : (d : Dir) (x : Side) → x.phase ≡ copying → reports d x ≡ []
copying-reports d x e = rw (e) refl

CopyStep-reports :
    (l : ℤ) (o : Bool) (d : Dir) (x y : Side)
    → CopyStep l o x y
    → (reports d x ≡ []) × (reports d y ≡ [])
CopyStep-reports l o d _ _ (moves x b p s k) = (rw (p) refl, refl)
CopyStep-reports l o d _ _ (write_ends x b n e p s k) = (rw (p) refl, refl)
CopyStep-reports l o d _ _ (read_ends x p s) = (rw (p) refl, refl)
CopyStep-reports l o d _ _ (read_fails x e p) = (rw (p) refl, refl)
CopyStep-reports l o d _ _ (closes x e p) = (rw (p) refl, refl)

-- A list in one of the two orders of its parts.
abbrev IsEither : List ConStat → List ConStat → List ConStat → Type 0
IsEither ss us vs = (ss ≡ us ++ vs) ⊎ (ss ≡ vs ++ us)

IsEither-swap : (ss us vs : List ConStat) → IsEither ss us vs → IsEither ss vs us
IsEither-swap ss us vs (inl e) = inr e
IsEither-swap ss us vs (inr e) = inl e

-- A report that arrives comes last.
arrives_last : (ss us vs ws : List ConStat) → us ≡ [] → IsEither ss us vs → ss ++ ws ≡ vs ++ ws
arrives_last ss us vs ws n (inl e) = rw (e, n) refl
arrives_last ss us vs ws n (inr e) = rw (e, n, append-nil vs) refl

-- handleWss has received what was reported.
abbrev IsReceived : Copies → Type 0
IsReceived c = IsEither c.stats (reports up c.up_side) (reports down c.down_side)

Step-IsReceived : (l : ℤ) (c c' : Copies) → Step l c c' → IsReceived c → IsReceived c'
Step-IsReceived l _ _ (up_copies c y s) h =
    let (before, after) = CopyStep-reports l true up c.up_side y s in
    subst (λ us. IsEither c.stats us (reports down c.down_side)) (before ∙ sym after) h
Step-IsReceived l _ _ (down_copies c y s) h =
    let (before, after) = CopyStep-reports l (is_open c.up_side.phase) down c.down_side y s in
    subst (IsEither c.stats (reports up c.up_side)) (before ∙ sym after) h
Step-IsReceived l _ _ (up_tells c e p) h = inr (
    arrives_last c.stats (reports up c.up_side) (reports down c.down_side)
      (conn_stat up e c.up_side ∷ []) (rw (p) refl) h)
Step-IsReceived l _ _ (down_tells c e p) h = inl (
    arrives_last c.stats (reports down c.down_side) (reports up c.up_side)
      (conn_stat down e c.down_side ∷ []) (rw (p) refl)
      (IsEither-swap c.stats (reports up c.up_side) (reports down c.down_side) h))

Runs-IsReceived : (l : ℤ) (n : ℕ) (c c' : Copies) → Runs l n c c' → IsReceived c → IsReceived c'
Runs-IsReceived l _ _ _ (stays c) h = h
Runs-IsReceived l _ _ _ (then_step n c c' c'' r s) h =
    Step-IsReceived l c' c'' s (Runs-IsReceived l n c c' r h)

-- When both goroutines have reported, the audit log gets the bytes and the error of each direction, up
-- before down, whichever of the two ended first, and the bytes are those that arrived.
pub Runs-copied :
    (l : ℤ) (n : ℕ) (c : Copies) (e f : Option Bytes)
    → Runs l n started c
    → c.up_side.phase ≡ told e
    → c.down_side.phase ≡ told f
    → audit_message c.stats
      ≡ some (copied (conn_stat up e c.up_side) (conn_stat down f c.down_side))
unfolding audit_message
Runs-copied l n c e f r u d = go (Runs-IsReceived l n started c r (inl refl))
  where
    go :
        IsReceived c
        → audit_message c.stats
          ≡ some (copied (conn_stat up e c.up_side) (conn_stat down f c.down_side))
    go (inl k) = rw (k, u, d) refl
    go (inr k) = rw (k, u, d) refl

-- A goroutine has sent what it may: no more bytes arrived than it counted, and these are within
-- the limit, one chunk, and the tokens that it waited for.
abbrev IsBounded : ℕ → Side → Type 0
IsBounded l x = (length x.delivered ≤ x.written) × (x.written ≤ l + chunk_len + waited x.steps)

receive-IsBounded :
    (l n : ℕ) (b : Bytes) (p : Phase) (x : Side)
    → length b ≤ chunk_len
    → IsBounded l x
    → IsBounded l (receive (pos l) b n p x)
unfolding limited_write
receive-IsBounded l n b p x k (h, h') = (
  omega (arith, length-append x.delivered (take n b), length-take n b),
  elim (Bool-cases (ltb_ℤ (pos l) (pos x.written))) [
    | inl e ↦ rw (e) (omega (arith, waited-append x.steps (wait_n (length b) ∷ write b ∷ [])))
    | inr e ↦ rw (e) (ground (arith, waited-append x.steps (write b ∷ [])))
  ],
)

CopyStep-IsBounded :
    (l : ℕ) (o : Bool) (x y : Side) → CopyStep (pos l) o x y → IsBounded l x → IsBounded l y
CopyStep-IsBounded l o _ _ (moves x b p s k) h = receive-IsBounded l (length b) b copying x k h
CopyStep-IsBounded l o _ _ (write_ends x b n e p s k) h =
    receive-IsBounded l n b (closing (some e)) x k h
CopyStep-IsBounded l o _ _ (read_ends x p s) h = h
CopyStep-IsBounded l o _ _ (read_fails x e p) h = h
CopyStep-IsBounded l o _ _ (closes x e p) h = h

abbrev AreBounded : ℕ → Copies → Type 0
AreBounded l c = IsBounded l c.up_side × IsBounded l c.down_side

Step-AreBounded : (l : ℕ) (c c' : Copies) → Step (pos l) c c' → AreBounded l c → AreBounded l c'
Step-AreBounded l _ _ (up_copies c y s) (h, k) = (CopyStep-IsBounded l true c.up_side y s h, k)
Step-AreBounded l _ _ (down_copies c y s) (h, k) =
    (h, CopyStep-IsBounded l (is_open c.up_side.phase) c.down_side y s k)
Step-AreBounded l _ _ (up_tells c e p) h = h
Step-AreBounded l _ _ (down_tells c e p) h = h

Runs-AreBounded : (l n : ℕ) (c c' : Copies) → Runs (pos l) n c c' → AreBounded l c → AreBounded l c'
Runs-AreBounded l _ _ _ (stays c) h = h
Runs-AreBounded l _ _ _ (then_step n c c' c'' r s) h =
    Step-AreBounded l c' c'' s (Runs-AreBounded l n c c' r h)

-- Under a limit that stays the same, at any time and in each direction, no more bytes have arrived than
-- the limit, one chunk of io.Copy, and the tokens that the goroutine asked for.
pub Runs-bounded :
    (l n : ℕ) (c : Copies)
    → Runs (pos l) n started c
    → (length c.up_side.delivered ≤ l + chunk_len + waited c.up_side.steps)
      × (length c.down_side.delivered ≤ l + chunk_len + waited c.down_side.steps)
Runs-bounded l n c r =
    let ((h, h'), (k, k')) =
      Runs-AreBounded l n started c r ((omega arith, omega arith), (omega arith, omega arith)) in
    (omega arith, omega arith)
