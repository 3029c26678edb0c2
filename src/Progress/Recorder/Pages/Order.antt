-- ===== src/Progress/Recorder/Pages/Order.antt =====
-- The rows of a page and how pages follow one another (crates/gareji-core/src/progress/mod.rs).
use mathlib.Core.Path.{subst}
use gareji_core.Base.{
  ℕ, zero, suc, ◌+◌, ◌<◌, ◌≡◌, ◌⊎◌, inl, inr, refl, ap, sym, ◌∙◌, Bool, true, false, ◌&&◌, Option,
  none, some, List, [], ◌∷◌, Text, arith, ltb, All, All_at, Elem, Bool-cases, Option-cases,
  &&-eq-true, filter, take, IsSorted, sort_by-fixed, text_ord, opt_eq,
}
use gareji_core.Progress.{CheckpointQuery}
use gareji_core.Progress.Ledger.{Ledger, CheckpointRow, find_checkpoint}
use gareji_core.Progress.Ledger.Invariant.{IsSound, Falling, find_checkpoint-Elem}
use gareji_core.Progress.Recorder.Pages.{
  before_cursor, in_work_item, selects, newest_first, page_rows,
}

-- The rows that a query selects, newest first.
abbrev pub selected : Ledger → CheckpointQuery → List CheckpointRow
selected db q = filter (selects db q) db.checkpoints

abbrev pub drop : ℕ → List CheckpointRow → List CheckpointRow
drop zero rows = rows
drop (suc n) [] = []
drop (suc n) (r ∷ rows) = drop n rows

All-filter :
    (P : CheckpointRow → Type 0) (p : CheckpointRow → Bool) (rows : List CheckpointRow)
    → All P rows
    → All P (filter p rows)
All-filter P p [] h = tt
All-filter P p (r ∷ rows) h = elim (Bool-cases (p r)) [
  | inl e ↦ rw e (h.0, All-filter P p rows h.1)
  | inr n ↦ rw n (All-filter P p rows h.1)
]

pub filter-Falling :
    (p : CheckpointRow → Bool) (rows : List CheckpointRow) → Falling rows → Falling (filter p rows)
filter-Falling p [] f = tt
filter-Falling p (r ∷ rows) f = elim (Bool-cases (p r)) [
  | inl e ↦ rw e (All-filter (λ q. q.rowid < r.rowid) p rows f.0, filter-Falling p rows f.1)
  | inr n ↦ rw n (filter-Falling p rows f.1)
]

newer :
    (r : CheckpointRow) (rows : List CheckpointRow)
    → All (λ q. q.rowid < r.rowid) rows
    → All (λ q. newest_first r q ≡ true) rows
newer r [] h = tt
newer r (q ∷ rows) h = (ground arith, newer r rows h.1)

Falling-IsSorted : (rows : List CheckpointRow) → Falling rows → IsSorted newest_first rows
Falling-IsSorted [] f = tt
Falling-IsSorted (r ∷ rows) f = (newer r rows f.0, Falling-IsSorted rows f.1)

-- The table is kept in the order that the query asks for.
pub page_rows_lem :
    (db : Ledger) (q : CheckpointQuery)
    → IsSound db
    → page_rows db q ≡ take (q.limit + 1) (selected db q)
unfolding page_rows
page_rows_lem db q s = ap (take (q.limit + 1)) (
    sort_by-fixed newest_first (selected db q)
      (Falling-IsSorted (selected db q) (filter-Falling (selects db q) db.checkpoints s.rowids)))

All-take :
    (P : CheckpointRow → Type 0) (n : ℕ) (rows : List CheckpointRow)
    → All P rows
    → All P (take n rows)
All-take P zero rows h = tt
All-take P (suc n) [] h = tt
All-take P (suc n) (r ∷ rows) h = (h.0, All-take P n rows h.1)

pub take-Falling : (n : ℕ) (rows : List CheckpointRow) → Falling rows → Falling (take n rows)
take-Falling zero rows f = tt
take-Falling (suc n) [] f = tt
take-Falling (suc n) (r ∷ rows) f =
    (All-take (λ q. q.rowid < r.rowid) n rows f.0, take-Falling n rows f.1)

in_kept :
    (p : CheckpointRow → Bool) (r q : CheckpointRow) (rows : List CheckpointRow)
    → p q ≡ true
    → (r ≡ q) ⊎ Elem r (filter p rows)
    → (Elem r (filter p rows) → Elem r rows × (p r ≡ true))
    → ((r ≡ q) ⊎ Elem r rows) × (p r ≡ true)
in_kept p r q rows e (inl here) ih = (inl here, subst (λ z. p z ≡ true) (sym here) e)
in_kept p r q rows e (inr there) ih = (inr (ih there).0, (ih there).1)

Elem-filter :
    (p : CheckpointRow → Bool) (r : CheckpointRow) (rows : List CheckpointRow)
    → Elem r (filter p rows)
    → Elem r rows × (p r ≡ true)
Elem-filter p r [] m = absurd m
Elem-filter p r (q ∷ rows) m = elim (Bool-cases (p q)) [
  | inl e ↦
      let m' : (r ≡ q) ⊎ Elem r (filter p rows) = ground arith in
      in_kept p r q rows e m' (Elem-filter p r rows)
  | inr n ↦
      let m' : Elem r (filter p rows) = ground arith in
      let (k, h) = Elem-filter p r rows m' in (inr k, h)
]

abbrev pub last_row : List CheckpointRow → Option CheckpointRow
last_row [] = none
last_row (r ∷ []) = some r
last_row (r ∷ s ∷ rest) = last_row (s ∷ rest)

Elem-last_row :
    (n : ℕ) (rows : List CheckpointRow) (c : CheckpointRow)
    → last_row (take n rows) ≡ some c
    → Elem c rows
Elem-last_row zero rows c h = cc
Elem-last_row (suc n) [] c h = cc
Elem-last_row (suc zero) (r ∷ rows) c h = inl (ground arith)
Elem-last_row (suc (suc n)) (r ∷ []) c h = inl (ground arith)
Elem-last_row (suc (suc n)) (r ∷ s ∷ rows) c h = inr (Elem-last_row (suc n) (s ∷ rows) c h)

older-All :
    (c : CheckpointRow) (rows : List CheckpointRow)
    → All (λ q. q.rowid < c.rowid) rows
    → filter (λ r. ltb r.rowid c.rowid) rows ≡ rows
older-All c [] h = refl
older-All c (r ∷ rows) h =
    let t : ltb r.rowid c.rowid ≡ true = ground arith in rw (t, older-All c rows h.1)

-- Behind the last row of a page stand exactly the rows that are older than it.
older_rows :
    (n : ℕ) (rows : List CheckpointRow) (c : CheckpointRow)
    → Falling rows
    → last_row (take n rows) ≡ some c
    → filter (λ r. ltb r.rowid c.rowid) rows ≡ drop n rows
older_rows zero rows c f h = cc
older_rows (suc n) [] c f h = cc
older_rows (suc zero) (r ∷ rows) c f h =
    let same : r ≡ c = ground arith in
    let t : ltb r.rowid c.rowid ≡ false = ground arith in
    rw t (older-All c rows (subst (λ z. All (λ q. q.rowid < z.rowid) rows) same f.0))
older_rows (suc (suc n)) (r ∷ []) c f h =
    let same : r ≡ c = ground arith in let t : ltb r.rowid c.rowid ≡ false = ground arith in rw t
older_rows (suc (suc n)) (r ∷ s ∷ rows) c f h =
    let m = Elem-last_row (suc n) (s ∷ rows) c h in
    let below = All_at (λ q. q.rowid < r.rowid) c (s ∷ rows) f.0 m in
    let t : ltb r.rowid c.rowid ≡ false = ground arith in
    rw t (older_rows (suc n) (s ∷ rows) c f.1 h)

filter-filter :
    (p q t : CheckpointRow → Bool) (rows : List CheckpointRow)
    → ((r : CheckpointRow) → t r ≡ (p r && q r))
    → filter t rows ≡ filter q (filter p rows)
filter-filter p q t [] h = refl
filter-filter p q t (r ∷ rows) h = ground (arith, h r, filter-filter p q t rows h)

and_regroup : (a b c : Bool) → (a && (b && c)) ≡ ((a && b) && c)
and_regroup a b c = ground arith

-- The query for the page behind a cursor.
abbrev pub next_query : CheckpointQuery → CheckpointRow → CheckpointQuery
next_query q c = record q { before_checkpoint_id = some c.checkpoint_id }

before_next :
    (db : Ledger) (before : Option Text) (c r : CheckpointRow)
    → find_checkpoint c.checkpoint_id db.checkpoints ≡ some c
    → before_cursor db before c ≡ true
    → before_cursor db (some c.checkpoint_id) r ≡ (before_cursor db before r && ltb r.rowid c.rowid)
unfolding before_cursor
before_next db none c r found b = ground arith
before_next db (some cursor) c r found b =
    elim (Option-cases (find_checkpoint cursor db.checkpoints)) [
      | inl lost ↦ ground arith
      | inr (mark, there) ↦ ground arith
    ]

selects_before :
    (db : Ledger) (q : CheckpointQuery) (c : CheckpointRow)
    → selects db q c ≡ true
    → before_cursor db q.before_checkpoint_id c ≡ true
unfolding selects
selects_before db q c h =
    (&&-eq-true (opt_eq c.project_id (some q.project_id) && in_work_item q.work_item_id c)
      (before_cursor db q.before_checkpoint_id c) h).1

selects-next_query :
    (db : Ledger) (q : CheckpointQuery) (c r : CheckpointRow)
    → find_checkpoint c.checkpoint_id db.checkpoints ≡ some c
    → before_cursor db q.before_checkpoint_id c ≡ true
    → selects db (next_query q c) r ≡ (selects db q r && ltb r.rowid c.rowid)
unfolding selects
selects-next_query db q c r found b = rw (before_next db q.before_checkpoint_id c r found b) (
    and_regroup (opt_eq r.project_id (some q.project_id) && in_work_item q.work_item_id r)
      (before_cursor db q.before_checkpoint_id r) (ltb r.rowid c.rowid))

-- In a sound ledger, the query that continues behind the last row of a page selects exactly the
-- rows that the page left out, in order: nothing is skipped and nothing comes twice.
pub selected-next_query :
    (db : Ledger) (q : CheckpointQuery) (c : CheckpointRow)
    → IsSound db
    → last_row (take q.limit (selected db q)) ≡ some c
    → selected db (next_query q c) ≡ drop q.limit (selected db q)
selected-next_query db q c s h =
    let (stored, chosen) =
      Elem-filter (selects db q) c db.checkpoints (Elem-last_row q.limit (selected db q) c h) in
    let found = find_checkpoint-Elem c db.checkpoints s.ids_once stored in
    filter-filter (selects db q) (λ r. ltb r.rowid c.rowid) (selects db (next_query q c))
      db.checkpoints (λ r. selects-next_query db q c r found (selects_before db q c chosen))
    ∙ older_rows q.limit (selected db q) c (filter-Falling (selects db q) db.checkpoints s.rowids) h
