-- ===== src/Transport/Headers/Trim.antt =====
-- `trimString` and `headerCb` against the texts that they take apart.
use native.Mathlib.Numerals.{add-one}
use unleash_cpp_sdk.Base.{
  Bool-cases, Option, Text, [], arith, false, if◌then◌else◌, inl, inr, none, refl, some, suc, sym,
  true, ℕ, ◌+◌, ◌-◌, ◌∙◌, ◌∷◌, ◌≡◌,
}
use unleash_cpp_sdk.Transport.Headers.{
  drop, find_first_not_of, find_last_not_of, mem, shift, substr, take, trim_string,
}

unfoldable pub strip_left : Text → Text → Text
strip_left ws [] = []
strip_left ws (c ∷ s) = if mem c ws then strip_left ws s else c ∷ s

strip_onto : Text → ℕ → Text → Text
strip_onto ws c [] = if mem c ws then [] else c ∷ []
strip_onto ws c (d ∷ s) = c ∷ d ∷ s

-- A character stays if it is no white space or something stays behind it.
unfoldable pub strip_right : Text → Text → Text
unfolding strip_onto
strip_right ws [] = []
strip_right ws (c ∷ s) = strip_onto ws c (strip_right ws s)

-- `take` up to the last character that is no white space.
up_to : Option ℕ → Text → Text
up_to none s = []
up_to (some i) s = take (suc i) s

onto-up_to :
    (ws s : Text) (c : ℕ) (o : Option ℕ)
    → find_last_not_of ws s ≡ o
    → strip_right ws s ≡ up_to o s
    → strip_onto ws c (strip_right ws s) ≡ up_to (find_last_not_of ws (c ∷ s)) (c ∷ s)
unfolding strip_onto find_last_not_of up_to
onto-up_to ws s c none e h = rw (h, e) (ground arith)
onto-up_to ws [] c (some i) e h = cc
onto-up_to ws (d ∷ s) c (some i) e h = rw (h, e, add-one)

strip_right-up_to : (ws s : Text) → strip_right ws s ≡ up_to (find_last_not_of ws s) s
unfolding strip_right
strip_right-up_to ws [] = unfold find_last_not_of up_to in refl
strip_right-up_to ws (c ∷ s) =
    onto-up_to ws s c (find_last_not_of ws s) refl (strip_right-up_to ws s)

-- The text between two indices, as `trimString` cuts it out.
pick : Option ℕ → Option ℕ → Text → Text
unfolding substr
pick none last s = []
pick (some first) none s = drop first s
pick (some first) (some last) s = substr first (last - first + 1) s

trim_string-pick :
    (s ws : Text) → trim_string s ws ≡ pick (find_first_not_of ws s) (find_last_not_of ws s) s
unfolding trim_string pick
trim_string-pick s ws = ground arith

pick-shift :
    (first last : Option ℕ) (c : ℕ) (s : Text)
    → pick (shift first) (shift last) (c ∷ s) ≡ pick first last s
unfolding pick shift
pick-shift none last c s = refl
pick-shift (some i) none c s = rw add-one
pick-shift (some i) (some j) c s =
    let e : j + 1 - (i + 1) ≡ j - i = omega arith in rw (e, add-one, add-one)

find_last_not_of-cons :
    (ws s : Text) (c : ℕ)
    → mem c ws ≡ true
    → find_last_not_of ws (c ∷ s) ≡ shift (find_last_not_of ws s)
unfolding find_last_not_of shift
find_last_not_of-cons ws s c h = ground arith

first_skips :
    (ws s : Text) (c : ℕ)
    → mem c ws ≡ true
    → find_first_not_of ws (c ∷ s) ≡ shift (find_first_not_of ws s)
unfolding find_first_not_of
first_skips ws s c h = rw h

first_stays : (ws s : Text) (c : ℕ) → mem c ws ≡ false → find_first_not_of ws (c ∷ s) ≡ some 0
unfolding find_first_not_of
first_stays ws s c h = rw h

trim_string-cons :
    (ws s : Text) (c : ℕ) → mem c ws ≡ true → trim_string (c ∷ s) ws ≡ trim_string s ws
trim_string-cons ws s c h =
    rw (trim_string-pick (c ∷ s) ws, trim_string-pick s ws, find_last_not_of-cons ws s c h)
      (rw (first_skips ws s c h) (pick-shift (find_first_not_of ws s) (find_last_not_of ws s) c s))

-- A first character that is no white space keeps the whole front.
pick-zero :
    (ws s : Text) (c : ℕ)
    → mem c ws ≡ false
    → pick (some 0) (find_last_not_of ws (c ∷ s)) (c ∷ s)
      ≡ up_to (find_last_not_of ws (c ∷ s)) (c ∷ s)
unfolding pick find_last_not_of up_to
pick-zero ws s c h = ground (arith, λ (i : ℕ). add-one i)

-- `trimString`, which works with two indices, removes the white space at both ends and no more.
pub trim_string-strip : (s ws : Text) → trim_string s ws ≡ strip_right ws (strip_left ws s)
unfolding strip_left
trim_string-strip [] ws = unfold trim_string strip_right in refl
trim_string-strip (c ∷ s) ws = elim (Bool-cases (mem c ws)) [
  | inl e ↦ rw e (trim_string-cons ws s c e ∙ trim_string-strip s ws)
  | inr e ↦
      rw (e, trim_string-pick (c ∷ s) ws, first_stays ws s c e)
        (pick-zero ws s c e ∙ sym (strip_right-up_to ws (c ∷ s)))
]
