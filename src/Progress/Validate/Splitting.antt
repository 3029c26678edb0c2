-- ===== src/Progress/Validate/Splitting.antt =====
-- The pieces between the separators of a path: when one of them is `..`
-- (crates/gareji-core/src/progress/types.rs, is_safe_relative_path).
use mathlib.Core.Path.{subst}
use mathlib.Core.List.{append_assoc, map-append}
use gareji_core.Base.{
  ℕ, ◌≡◌, ◌⊎◌, inl, inr, refl, ap, sym, ◌∙◌, true, List, [], ◌∷◌, ◌++◌, Text, codes, nat_beq, Elem,
  Elem-append, Bool-cases, arith, text_ord,
}
use gareji_core.Progress.Validate.{split, onto_first, slash, normalize}

-- A separator on some platform.
abbrev pub IsSeparator : ℕ → Type 0
IsSeparator c = (c ≡ b'/') ⊎ (c ≡ 0x5c)

-- A component of the path is `..`, whichever separators stand around it.
pub record HasParent (value : Text) : Type 0 where
  pub before : Text
  pub after : Text
  pub shape : value ≡ before ++ (b'.' ∷ b'.' ∷ after)
  pub left :
      (before ≡ []) ⊎ ((front : Text) × (s : ℕ) × IsSeparator s × (before ≡ front ++ (s ∷ [])))
  pub right : (after ≡ []) ⊎ ((s : ℕ) × (rest : Text) × IsSeparator s × (after ≡ s ∷ rest))

split_nonempty : (c : ℕ) (t : Text) → (p : Text) × (ps : List Text) × (split c t ≡ p ∷ ps)
unfolding split onto_first
split_nonempty c [] = ([], [], refl)
split_nonempty c (x ∷ t) = elim (Bool-cases (nat_beq x c)) [
  | inl e ↦ ([], split c t, rw e)
  | inr n ↦ let (p, ps, found) = split_nonempty c t in (x ∷ p, ps, rw (n, found))
]

-- Splitting at a separator.
split-append : (c : ℕ) (a b : Text) → split c (a ++ (c ∷ b)) ≡ split c a ++ split c b
unfolding split onto_first
split-append c [] b = ground arith
split-append c (x ∷ a) b = elim (Bool-cases (nat_beq x c)) [
  | inl e ↦ rw (e, split-append c a b)
  | inr n ↦ let (p, ps, found) = split_nonempty c a in rw (n, split-append c a b, found)
]

parent_piece :
    (after : Text)
    → (after ≡ []) ⊎ ((rest : Text) × (after ≡ b'/' ∷ rest))
    → Elem (codes "..") (split b'/' (b'.' ∷ b'.' ∷ after))
unfolding split onto_first
parent_piece after (inl e) = rw e (inl refl)
parent_piece after (inr (rest, e)) = rw e (inl refl)

slash_separator : (c : ℕ) → IsSeparator c → slash c ≡ b'/'
slash_separator c h = ground arith

right_normal :
    (after : Text)
    → (after ≡ []) ⊎ ((s : ℕ) × (rest : Text) × IsSeparator s × (after ≡ s ∷ rest))
    → (normalize after ≡ []) ⊎ ((rest : Text) × (normalize after ≡ b'/' ∷ rest))
right_normal after (inl e) = inl (rw e)
right_normal after (inr (s, rest, h, e)) = inr (normalize rest, rw e (rw (slash_separator s h)))

pub parent_found :
    (before after : Text)
    → (before ≡ []) ⊎ ((front : Text) × (s : ℕ) × IsSeparator s × (before ≡ front ++ (s ∷ [])))
    → (after ≡ []) ⊎ ((s : ℕ) × (rest : Text) × IsSeparator s × (after ≡ s ∷ rest))
    → Elem (codes "..") (split b'/' (normalize (before ++ (b'.' ∷ b'.' ∷ after))))
parent_found before after (inl e) r = rw e (parent_piece (normalize after) (right_normal after r))
parent_found before after (inr (front, s, h, e)) r = rw e (
    rw (append_assoc, map-append)
      (rw (slash_separator s h) (
        rw split-append (
          (Elem-append (codes "..") (split b'/' (normalize front))
              (split b'/' (b'.' ∷ b'.' ∷ normalize after))).1
            (inr (parent_piece (normalize after) (right_normal after r)))))))

-- The same with something before the component.
record InnerParent (value : Text) : Type 0 where
  front : Text
  s : ℕ
  after : Text
  sep : IsSeparator s
  shape : value ≡ front ++ (s ∷ b'.' ∷ b'.' ∷ after)
  right : (after ≡ []) ⊎ ((s : ℕ) × (rest : Text) × IsSeparator s × (after ≡ s ∷ rest))

abbrev Ends : Text → Type 0
Ends after = (after ≡ []) ⊎ ((s : ℕ) × (rest : Text) × IsSeparator s × (after ≡ s ∷ rest))

pub is_separator : (x : ℕ) → nat_beq (slash x) b'/' ≡ true → IsSeparator x
is_separator x h = ground arith

first_empty : (v : Text) (ps : List Text) → split b'/' (normalize v) ≡ [] ∷ ps → Ends v
unfolding split onto_first
first_empty [] ps h = inl refl
first_empty (x ∷ v) ps h = elim (Bool-cases (nat_beq (slash x) b'/')) [
  | inl e ↦ inr (x, v, is_separator x e, refl)
  | inr n ↦ let (p, qs, found) = split_nonempty b'/' (normalize v) in ground arith
]

first_dot :
    (v : Text) (ps : List Text)
    → split b'/' (normalize v) ≡ codes "." ∷ ps
    → (after : Text) × (v ≡ b'.' ∷ after) × Ends after
unfolding split onto_first
first_dot [] ps h = cc
first_dot (x ∷ v) ps h = elim (Bool-cases (nat_beq (slash x) b'/')) [
  | inl e ↦ ground arith
  | inr n ↦
      let (p, qs, found) = split_nonempty b'/' (normalize v) in
      (v, ground arith, first_empty v qs (ground arith))
]

first_parent :
    (v : Text) (ps : List Text)
    → split b'/' (normalize v) ≡ codes ".." ∷ ps
    → (after : Text) × (v ≡ b'.' ∷ b'.' ∷ after) × Ends after
unfolding split onto_first
first_parent [] ps h = cc
first_parent (x ∷ v) ps h = elim (Bool-cases (nat_beq (slash x) b'/')) [
  | inl e ↦ ground arith
  | inr n ↦
      let (p, qs, found) = split_nonempty b'/' (normalize v) in
      let (after, shape, ends) = first_dot v qs (ground arith) in (after, ground arith, ends)
]

at_separator :
    (x : ℕ) (v q : Text) (qs : List Text)
    → nat_beq (slash x) b'/' ≡ true
    → split b'/' (normalize v) ≡ q ∷ qs
    → (codes ".." ≡ q) ⊎ Elem (codes "..") qs
    → (Elem (codes "..") qs → InnerParent v)
    → InnerParent (x ∷ v)
at_separator x v q qs e found (inl here) later =
    let (after, shape, ends) = first_parent v qs (found ∙ ap (λ r. r ∷ qs) (sym here)) in
    record {
      front = [];
      s = x;
      after = after;
      sep = is_separator x e;
      shape = ap (◌∷◌ x) shape;
      right = ends;
    }
at_separator x v q qs e found (inr there) later =
    let i = later there in
    record {
      front = x ∷ i.front;
      s = i.s;
      after = i.after;
      sep = i.sep;
      shape = ap (◌∷◌ x) i.shape;
      right = i.right;
    }

later_parent :
    (v p : Text) (ps : List Text)
    → split b'/' (normalize v) ≡ p ∷ ps
    → Elem (codes "..") ps
    → InnerParent v
unfolding split onto_first
later_parent [] p ps h m = ground arith
later_parent (x ∷ v) p ps h m = elim (Bool-cases (nat_beq (slash x) b'/')) [
  | inl e ↦
      let (q, qs, found) = split_nonempty b'/' (normalize v) in
      let here : (codes ".." ≡ q) ⊎ Elem (codes "..") qs = ground arith in
      at_separator x v q qs e found here (later_parent v q qs found)
  | inr n ↦
      let (q, qs, found) = split_nonempty b'/' (normalize v) in
      let i = later_parent v q qs found (ground arith) in
      record {
        front = x ∷ i.front;
        s = i.s;
        after = i.after;
        sep = i.sep;
        shape = ap (◌∷◌ x) i.shape;
        right = i.right;
      }
]

at_start :
    (v p : Text) (ps : List Text)
    → split b'/' (normalize v) ≡ p ∷ ps
    → (codes ".." ≡ p) ⊎ Elem (codes "..") ps
    → HasParent v
at_start v p ps found (inl here) =
    let (after, shape, ends) = first_parent v ps (found ∙ ap (λ r. r ∷ ps) (sym here)) in
    record { before = []; after = after; shape = shape; left = inl refl; right = ends }
at_start v p ps found (inr there) =
    let i = later_parent v p ps found there in
    record {
      before = i.front ++ (i.s ∷ []);
      after = i.after;
      shape = i.shape ∙ sym (append_assoc i.front (i.s ∷ []) (b'.' ∷ b'.' ∷ i.after));
      left = inr (i.front, i.s, i.sep, refl);
      right = i.right;
    }

pub found_parent : (v : Text) → Elem (codes "..") (split b'/' (normalize v)) → HasParent v
found_parent v m =
    let (p, ps, found) = split_nonempty b'/' (normalize v) in
    let here : (codes ".." ≡ p) ⊎ Elem (codes "..") ps = subst (Elem (codes "..")) found m in
    at_start v p ps found here
