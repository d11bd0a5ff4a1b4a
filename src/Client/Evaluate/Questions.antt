-- ===== src/Client/Evaluate/Questions.antt =====
-- The questions that a client is asked, and the reports that they make.
pub mod Effects
pub mod Payload
use unleash_cpp_sdk.Base.{
  Bool, List, Text, [], arith, if◌then◌else◌, is_empty, ltb, not, refl, text_eq, text_eq_iff, ℕ,
  ◌&&◌, ◌++◌, ◌+◌, ◌||◌, ◌∷◌, ◌≡◌,
}
use unleash_cpp_sdk.Domain.Toggles as Toggles
use unleash_cpp_sdk.Domain.Toggles.{ToggleSet, contains}
use unleash_cpp_sdk.Metrics.Counters.{bit}
use unleash_cpp_sdk.Metrics.MetricList.{Report, enable, variant}
use unleash_cpp_sdk.Metrics.MetricList.Counts.{any_of, count_if, names, says, serves}
use unleash_cpp_sdk.Client.State.{Client}
use unleash_cpp_sdk.Client.Evaluate as Evaluate

-- A call of `isEnabled` or of `getVariant` with its flag.
pub data Question : Type 0 where
  enabled_of variant_of : Text → Question

unfoldable pub ask : {W : Type 0} → Question → Client W → Client W
ask (enabled_of name) c = (Evaluate.is_enabled name c).0
ask (variant_of name) c = (Evaluate.get_variant name c).0

unfoldable pub ask_all : {W : Type 0} → List Question → Client W → Client W
unfolding ask
ask_all [] c = c
ask_all (q ∷ qs) c = ask_all qs (ask q c)

-- How often a flag was asked for, by both methods or for its variant.
unfoldable pub asked : Text → List Question → ℕ
asked k [] = 0
asked k (enabled_of name ∷ qs) = bit (text_eq name k) + asked k qs
asked k (variant_of name ∷ qs) = bit (text_eq name k) + asked k qs

unfoldable pub asked_variant : Text → List Question → ℕ
asked_variant k [] = 0
asked_variant k (enabled_of name ∷ qs) = asked_variant k qs
asked_variant k (variant_of name ∷ qs) = bit (text_eq name k) + asked_variant k qs

-- The report of a question, if the set knows the flag.
pub report_of : ToggleSet → Question → List Report
report_of s (enabled_of name) =
    if contains name s then enable name (Toggles.is_enabled name s) ∷ [] else []
report_of s (variant_of name) =
    if contains name s
    then variant name (Toggles.is_enabled name s) (Toggles.get_variant name s).name ∷ []
    else []

pub reports_of : ToggleSet → List Question → List Report
reports_of s [] = []
reports_of s (q ∷ qs) = report_of s q ++ reports_of s qs

count_if-append :
    (p : Report → Bool) (rs ss : List Report)
    → count_if p (rs ++ ss) ≡ count_if p rs + count_if p ss
unfolding count_if
count_if-append p [] ss = omega arith
count_if-append p (r ∷ rs) ss = omega (arith, count_if-append p rs ss)

says-reports_of :
    (k : Text) (a : Bool) (s : ToggleSet) (q : Question)
    → count_if (says k a) (report_of s q) ≡ (
        if contains k s && (if a then Toggles.is_enabled k s else not (Toggles.is_enabled k s))
        then asked k (q ∷ [])
        else 0)
unfolding report_of count_if says asked
says-reports_of k a s (enabled_of name) = ground (arith, text_eq_iff name k)
says-reports_of k a s (variant_of name) = ground (arith, text_eq_iff name k)

serves-reports_of :
    (k w : Text) (s : ToggleSet) (q : Question)
    → count_if (serves k w) (report_of s q) ≡ (
        if contains k s
          && (not (is_empty (Toggles.get_variant k s).name)
              && text_eq (Toggles.get_variant k s).name w)
        then asked_variant k (q ∷ [])
        else 0)
unfolding report_of count_if serves asked_variant
serves-reports_of k w s (enabled_of name) = ground arith
serves-reports_of k w s (variant_of name) = ground (arith, text_eq_iff name k)

asked-cons :
    (k : Text) (q : Question) (qs : List Question)
    → asked k (q ∷ qs) ≡ asked k (q ∷ []) + asked k qs
unfolding asked
asked-cons k (enabled_of name) qs = omega arith
asked-cons k (variant_of name) qs = omega arith

asked_variant-cons :
    (k : Text) (q : Question) (qs : List Question)
    → asked_variant k (q ∷ qs) ≡ asked_variant k (q ∷ []) + asked_variant k qs
unfolding asked_variant
asked_variant-cons k (enabled_of name) qs = omega arith
asked_variant-cons k (variant_of name) qs = omega arith

any_of-append :
    (p : Report → Bool) (rs ss : List Report) → any_of p (rs ++ ss) ≡ (any_of p rs || any_of p ss)
unfolding any_of
any_of-append p [] ss = refl
any_of-append p (r ∷ rs) ss = ground (arith, any_of-append p rs ss)

names-report_of :
    (k : Text) (s : ToggleSet) (q : Question)
    → any_of (names k) (report_of s q) ≡ (contains k s && ltb 0 (asked k (q ∷ [])))
unfolding report_of any_of names asked
names-report_of k s (enabled_of name) = ground (arith, text_eq_iff name k)
names-report_of k s (variant_of name) = ground (arith, text_eq_iff name k)

names-reports_of :
    (k : Text) (s : ToggleSet) (qs : List Question)
    → any_of (names k) (reports_of s qs) ≡ (contains k s && ltb 0 (asked k qs))
unfolding reports_of any_of
names-reports_of k s [] = unfold asked in ground arith
names-reports_of k s (q ∷ qs) = ground (
  arith,
  any_of-append (names k) (report_of s q) (reports_of s qs),
  names-report_of k s q,
  names-reports_of k s qs,
  asked-cons k q qs,
)

-- A count that each question moves by `f` if `b` holds.
module _ (p : Report → Bool) (b : Bool) (s : ToggleSet) (f : List Question → ℕ) (empty : f [] ≡ 0)
    (cons : (q : Question) (qs : List Question) → f (q ∷ qs) ≡ f (q ∷ []) + f qs)
    (one : (q : Question) → count_if p (report_of s q) ≡ (if b then f (q ∷ []) else 0)) where
  count_if-reports_of :
      (qs : List Question) → count_if p (reports_of s qs) ≡ (if b then f qs else 0)
  unfolding reports_of count_if
  count_if-reports_of [] = ground (arith, empty)
  count_if-reports_of (q ∷ qs) = ground (
    arith,
    count_if-append p (report_of s q) (reports_of s qs),
    count_if-reports_of qs,
    one q,
    cons q qs,
  )
