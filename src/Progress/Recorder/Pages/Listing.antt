-- ===== src/Progress/Recorder/Pages/Listing.antt =====
-- What `list` returns (crates/gareji-core/src/progress/mod.rs).
use mathlib.Core.Path.{ap₂, subst}
use gareji_core.Base.{
  ℕ, zero, suc, ◌+◌, ◌≤◌, ◌≡◌, refl, ap, sym, ◌∙◌, Bool, not, Option, none, some, List, [], ◌∷◌,
  Text, arith, ltb, if◌then◌else◌, Result, ok, >>=-eq-ok, map_err, unless-eq-ok, take, length,
  length-take, text_ord, eq_iff, ◌==◌, min, fail_if, ok_or,
}
use gareji_core.Progress.{ProgressCheckpoint, CheckpointQuery, CheckpointPage, CheckpointStatus}
use gareji_core.Progress.Ledger.{
  Externals, Ledger, CheckpointRow, ProgressError, invalid_checkpoint, sql, select_page,
  select_deliveries, serialization,
}
use gareji_core.Progress.Ledger.Invariant.{IsSound}
use gareji_core.Progress.Recorder.{read_all, read_delivery}
use gareji_core.Progress.Recorder.Pages.{
  selects, page_rows, read_checkpoint, left_join, assemble, validate_query, last_id, cut_page, list,
}
use gareji_core.Progress.Recorder.Pages.Assembly.{page_status, assemble_page}
use gareji_core.Progress.Recorder.Pages.Order.{
  selected, last_row, page_rows_lem, filter-Falling, take-Falling,
}

module _ {A B : Type 0} (f : A → Result B ProgressError) where
  length-read_all : (xs : List A) {ys : List B} → read_all f xs ≡ ok ys → length ys ≡ length xs
  length-read_all [] {ys} h = ground arith
  length-read_all (x ∷ xs) {ys} h =
      let (y, first, rest) = >>=-eq-ok (f x) _ h in
      let (more, others, last) = >>=-eq-ok (read_all f xs) _ rest in
      let e : y ∷ more ≡ ys = cc in rw (← e) (ap suc (length-read_all xs others))

  read_all-take :
      (n : ℕ) (xs : List A) {ys : List B}
      → read_all f xs ≡ ok ys
      → read_all f (take n xs) ≡ ok (take n ys)
  read_all-take zero xs h = refl
  read_all-take (suc n) [] {ys} h = let e : ◌≡◌ {A = List B} [] ys = ground arith in rw (← e)
  read_all-take (suc n) (x ∷ xs) {ys} h =
      let (y, first, rest) = >>=-eq-ok (f x) _ h in
      let (more, others, last) = >>=-eq-ok (read_all f xs) _ rest in
      let e : y ∷ more ≡ ys = cc in rw (← e) (rw (first, read_all-take n xs others))

take-take : {A : Type 0} (n : ℕ) (xs : List A) → take n (take (suc n) xs) ≡ take n xs
take-take zero xs = refl
take-take (suc n) [] = refl
take-take (suc n) (x ∷ xs) = rw (take-take n xs)

abbrev pub row_id : Option CheckpointRow → Option Text
row_id none = none
row_id (some r) = some r.checkpoint_id

ok-injective : {A : Type 0} {a b : A} → ◌≡◌ {A = Result A ProgressError} (ok a) (ok b) → a ≡ b
ok-injective h = cc

last_skip :
    (s : CheckpointStatus) (more : List CheckpointStatus)
    → 1 ≤ length more
    → last_id (s ∷ more) ≡ last_id more
last_skip s [] h = absurd (omega arith)
last_skip s (t ∷ more) h = refl

page_status_id :
    (x : Externals) (db : Ledger) (c : CheckpointRow) {s : CheckpointStatus}
    → page_status x db c ≡ ok s
    → s.checkpoint.checkpoint_id ≡ c.checkpoint_id
unfolding page_status
page_status_id x db c {s} h =
    let (checkpoint, opened, rest) = >>=-eq-ok (read_checkpoint x c) _ h in
    let (decoded, d, r1) = >>=-eq-ok (ok_or (x.from_str c.payload_json) serialization) _ opened in
    let (u, same, r2) =
      >>=-eq-ok (fail_if (not (decoded.checkpoint_id == c.checkpoint_id)) _) _ r1 in
    let id = (eq_iff decoded.checkpoint_id c.checkpoint_id).0 (unless-eq-ok _ _ same) in
    let e : decoded ≡ checkpoint = cc in
    let (rs, read, r3) =
      >>=-eq-ok (read_all read_delivery (select_deliveries c.checkpoint_id db.deliveries)) _ rest in
    let k = ap (λ (z : CheckpointStatus). z.checkpoint.checkpoint_id) (ok-injective r3) in
    sym k ∙ ap (λ (z : ProgressCheckpoint). z.checkpoint_id) (sym e) ∙ id

last_id_read :
    (x : Externals) (db : Ledger) (rows : List CheckpointRow) {ss : List CheckpointStatus}
    → read_all (page_status x db) rows ≡ ok ss
    → last_id ss ≡ row_id (last_row rows)
last_id_read x db [] {ss} h =
    let e : ◌≡◌ {A = List CheckpointStatus} [] ss = ground arith in rw (← e)
last_id_read x db (r ∷ []) {ss} h =
    let (s, first, rest) = >>=-eq-ok (page_status x db r) _ h in
    let e : s ∷ [] ≡ ss = cc in
    subst (λ z. last_id z ≡ some r.checkpoint_id) e (ap some (page_status_id x db r first))
last_id_read x db (r ∷ q ∷ rows) {ss} h =
    let (s, first, rest) = >>=-eq-ok (page_status x db r) _ h in
    let (more, others, last) = >>=-eq-ok (read_all (page_status x db) (q ∷ rows)) _ rest in
    let e : s ∷ more ≡ ss = cc in
    let n = length-read_all (page_status x db) (q ∷ rows) others in
    rw (← e) (last_skip s more (omega arith) ∙ last_id_read x db (q ∷ rows) others)

same_test : (limit a b : ℕ) → a ≡ min (suc limit) b → ltb limit a ≡ ltb limit b
same_test limit a b h = ground arith

-- On a sound ledger, a page that is returned holds the first `limit` of the checkpoints that
-- the query selects, in the order of the ledger, newest first, each read with its own
-- deliveries; its cursor is the identity of the last of them exactly when more are selected.
pub list_page :
    (x : Externals) (db : Ledger) (q : CheckpointQuery) {page : CheckpointPage}
    → IsSound db
    → list x db q ≡ ok page
    → (read_all (page_status x db) (take q.limit (selected db q)) ≡ ok page.checkpoints)
      × (page.next_cursor ≡ (
          if ltb q.limit (length (selected db q))
          then row_id (last_row (take q.limit (selected db q)))
          else none))
unfolding list cut_page
list_page x db q {page} sound h =
    let (u, valid, r0) = >>=-eq-ok (map_err invalid_checkpoint (validate_query q)) _ h in
    let (v, called, r1) = >>=-eq-ok (sql x select_page) _ r0 in
    let (ss, assembled, r2) = >>=-eq-ok (assemble x (left_join db (page_rows db q)) none []) _ r1 in
    let one_more : q.limit + 1 ≡ suc q.limit = omega arith in
    let chosen = selected db q in
    let rows : page_rows db q ≡ take (suc q.limit) chosen =
      page_rows_lem db q sound ∙ ap (λ (n : ℕ). take n chosen) one_more in
    let falling =
      take-Falling (suc q.limit) chosen
        (filter-Falling (selects db q) db.checkpoints sound.rowids) in
    let read : read_all (page_status x db) (take (suc q.limit) chosen) ≡ ok ss =
      sym (
        ap (λ (rs : List CheckpointRow). assemble x (left_join db rs) none []) rows
        ∙ assemble_page x db (take (suc q.limit) chosen) falling)
      ∙ assembled in
    let kept : read_all (page_status x db) (take q.limit chosen) ≡ ok (take q.limit ss) =
      ap (read_all (page_status x db)) (sym (take-take q.limit chosen))
      ∙ read_all-take (page_status x db) q.limit _ read in
    let size = length-read_all (page_status x db) (take (suc q.limit) chosen) read in
    let n = length-take (suc q.limit) chosen in
    let more : ltb q.limit (length ss) ≡ ltb q.limit (length chosen) =
      same_test q.limit (length ss) (length chosen) (omega arith) in
    let cut = ok-injective r2 in
    (
      kept ∙ ap (λ (p : CheckpointPage). ok p.checkpoints) cut,
      sym (ap (λ (p : CheckpointPage). p.next_cursor) cut)
          ∙ ap₂ (λ (b : Bool) (o : Option Text). if b then o else none) more
              (last_id_read x db (take q.limit chosen) kept),
    )
