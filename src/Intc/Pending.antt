-- ===== src/Intc/Pending.antt =====
-- The list of pending requests: `raiseIRQ`, `MMIOBus.raise` and `gatePending`.
use casio_cg.Base.{
  ℕ, suc, ◌+◌, ◌-◌, ◌≤◌, ◌<◌, ◌≡◌, refl, ◌⊎◌, inl, inr, true, false, ◌&&◌, ◌||◌, none, some, List,
  [], ◌∷◌, arith, ◌==◌, if◌then◌else◌, Bool-cases, get_elem?,
}
use casio_cg.Intc.{
  enabled, has_request, append, raise_irq, raise, drops, waits, outranks, Best, better, gate_loop,
  gate_pending, Intc, Pend,
}

-- No two requests of the list have the same event code.
abbrev pub IsDistinct : List Pend → Type 0
IsDistinct [] = Unit
IsDistinct (p ∷ ps) = (has_request p.intevt ps ≡ false) × IsDistinct ps

has_request-append :
    (ps : List Pend) (q : Pend) (e : ℕ)
    → has_request e (append ps q) ≡ (has_request e ps || (q.intevt == e))
unfolding has_request append
has_request-append [] q e = ground arith
has_request-append (p ∷ ps) q e = ground (arith, has_request-append ps q e)

IsDistinct-append :
    (ps : List Pend) (q : Pend)
    → IsDistinct ps
    → has_request q.intevt ps ≡ false
    → IsDistinct (append ps q)
unfolding append has_request
IsDistinct-append [] q d h = (refl, tt)
IsDistinct-append (p ∷ ps) q d h =
    (ground (arith, has_request-append ps q p.intevt), IsDistinct-append ps q d.1 (ground arith))

pub raise_irq-IsDistinct :
    (ps : List Pend) (e l : ℕ) → IsDistinct ps → IsDistinct (raise_irq ps e l)
unfolding raise_irq
raise_irq-IsDistinct ps e l d = elim (Bool-cases (has_request e ps)) [
  | inl old ↦ rw old d
  | inr new ↦ rw new (IsDistinct-append ps (record { level = l; intevt = e }) d new)
]

has_request-raise_irq :
    (ps : List Pend) (e l x : ℕ) → has_request x (raise_irq ps e l) ≡ (has_request x ps || (e == x))
unfolding raise_irq
has_request-raise_irq ps e l x =
    ground (arith, has_request-append ps (record { level = l; intevt = e }) x)

-- The level that `raise` asks for.
level_of : Intc → ℕ → ℕ → ℕ
level_of k e l = let l' = if l == 0 then (enabled k e).1 else l in if l' == 0 then 8 else l'

-- A request through the controller keeps the pending requests distinct; afterwards a source is
-- pending exactly if it was before or it is the one requested and the controller lets it
-- through; and a request that is not let through changes nothing.
raise_lem :
    (k : Intc) (ps : List Pend) (e l x : ℕ)
    → IsDistinct ps
    → IsDistinct (raise k ps e l)
      × (has_request x (raise k ps e l) ≡ (has_request x ps || ((e == x) && (enabled k e).0)))
      × (((enabled k e).0 ≡ true) ⊎ (raise k ps e l ≡ ps))
unfolding raise level_of
raise_lem k ps e l x d = ground (
  arith,
  raise_irq-IsDistinct ps e (level_of k e l) d,
  has_request-raise_irq ps e (level_of k e l) x,
)

-- q is no better than p: a lower level, or the same level and no higher event code.
abbrev pub NoBetter : Pend → Pend → Type 0
NoBetter q p = (q.level < p.level) ⊎ ((q.level ≡ p.level) × (q.intevt ≤ p.intevt))

-- Every unmasked request of the list is no better than p.
abbrev pub AllNoBetter : Intc → List Pend → Pend → Type 0
AllNoBetter k [] p = Unit
AllNoBetter k (q ∷ qs) p = ((waits k q ≡ true) ⊎ NoBetter q p) × AllNoBetter k qs p

abbrev pub AllWait : Intc → List Pend → Type 0
AllWait k [] = Unit
AllWait k (q ∷ qs) = (waits k q ≡ true) × AllWait k qs

-- The requests of the list that are not dropped, in order.
pub kept : Intc → List Pend → List Pend
kept k [] = []
kept k (p ∷ ps) = if drops k p then kept k ps else p ∷ kept k ps

-- The best request of the earlier ones, if there is one, is no better than p.
abbrev OldNoBetter : Best → Pend → Type 0
OldNoBetter none p = Unit
OldNoBetter (some (j, q)) p = NoBetter q p

gate_loop-kept : (k : Intc) (ps : List Pend) (n : ℕ) (b : Best) → (gate_loop k ps n b).0 ≡ kept k ps
unfolding gate_loop kept
gate_loop-kept k [] n b = refl
gate_loop-kept k (p ∷ ps) n b = ground (
  arith,
  gate_loop-kept k ps n b,
  gate_loop-kept k ps (n + 1) b,
  gate_loop-kept k ps (n + 1) (better n p b),
)

gate_loop-none :
    (k : Intc) (ps : List Pend) (n : ℕ) (b : Best)
    → (gate_loop k ps n b).1 ≡ none
    → (b ≡ none) × AllWait k (kept k ps)
unfolding gate_loop kept better
gate_loop-none k [] n b h = (h, tt)
gate_loop-none k (p ∷ ps) n b h = ground (
  arith,
  gate_loop-none k ps n b,
  gate_loop-none k ps (n + 1) b,
  gate_loop-none k ps (n + 1) (better n p b),
)

gate_loop-best :
    (k : Intc) (ps : List Pend) (n : ℕ) (b : Best) (i : ℕ) (p : Pend)
    → (gate_loop k ps n b).1 ≡ some (i, p)
    → AllNoBetter k (kept k ps) p × OldNoBetter b p
unfolding gate_loop kept better outranks
gate_loop-best k [] n b i p h = (tt, ground arith)
gate_loop-best k (q ∷ ps) n b i p h = ground (
  arith,
  gate_loop-best k ps n b i p,
  gate_loop-best k ps (n + 1) b i p,
  gate_loop-best k ps (n + 1) (better n q b) i p,
)

get_elem?-cons :
    (q : Pend) (qs : List Pend) (i n : ℕ)
    → n + 1 ≤ i
    → get_elem? (q ∷ qs) (i - n) ≡ get_elem? qs (i - (n + 1))
get_elem?-cons q qs i n h = let e : i - n ≡ suc (i - (n + 1)) = omega arith in rw e

gate_loop-index :
    (k : Intc) (ps : List Pend) (n : ℕ) (b : Best) (i : ℕ) (p : Pend)
    → (gate_loop k ps n b).1 ≡ some (i, p)
    → (b ≡ some (i, p)) ⊎ ((n ≤ i) × (get_elem? (kept k ps) (i - n) ≡ some p) × (waits k p ≡ false))
unfolding gate_loop kept better
gate_loop-index k [] n b i p h = inl h
gate_loop-index k (q ∷ ps) n b i p h = ground (
  arith,
  gate_loop-index k ps n b i p,
  gate_loop-index k ps (n + 1) b i p,
  gate_loop-index k ps (n + 1) (better n q b) i p,
  get_elem?-cons q (kept k ps) i n,
)

-- What the controller presents of the requests that stay.
abbrev pub IsPresented : Intc → List Pend → Best → Type 0
IsPresented k ks none = AllWait k ks
IsPresented k ks (some (i, p)) =
    (get_elem? ks i ≡ some p) × (waits k p ≡ false) × AllNoBetter k ks p

gate_pending-IsPresented :
    (k : Intc) (ps : List Pend) (b : Best)
    → (gate_loop k ps 0 none).1 ≡ b
    → IsPresented k (kept k ps) b
gate_pending-IsPresented k ps none h = (gate_loop-none k ps 0 none h).1
gate_pending-IsPresented k ps (some (i, p)) h =
    ground (arith, gate_loop-index k ps 0 none i p, gate_loop-best k ps 0 none i p)

-- `gatePending` keeps exactly the requests whose source is not disabled, in order. If it returns
-- an index, the request there is unmasked, and no unmasked request that stays has a higher level,
-- or the same level and a higher event code. If it returns none, every one that stays is masked.
pub gate_pending_lem :
    (k : Intc) (ps : List Pend)
    → ((gate_pending k ps).0 ≡ kept k ps) × IsPresented k (kept k ps) (gate_pending k ps).1
unfolding gate_pending
gate_pending_lem k ps =
    (gate_loop-kept k ps 0 none, gate_pending-IsPresented k ps (gate_loop k ps 0 none).1 refl)
