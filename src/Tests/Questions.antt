-- ===== src/Tests/Questions.antt =====
-- The counters of the questions that a client was asked.
use unleash_cpp_sdk.Base.{List, [], codes, lookup, ltb, refl, text_eq, true, ◌∷◌, ◌≡◌}
use unleash_cpp_sdk.Domain.Toggles.{contains}
use unleash_cpp_sdk.Store.Flags.{snapshot}
use unleash_cpp_sdk.Client.Evaluate.Questions.{Question, asked, enabled_of, variant_of}
use unleash_cpp_sdk.Tests.Data.{live_client}

abbrev pub questions : List Question
questions =
    enabled_of (codes "tried") ∷ variant_of (codes "tried") ∷ enabled_of (codes "missing") ∷ []

pub tried-contains : contains (codes "tried") (snapshot live_client.flag_store) ≡ true
unfolding contains snapshot lookup text_eq
tried-contains = refl

pub tried-asked : ltb 0 (asked (codes "tried") questions) ≡ true
unfolding asked text_eq
tried-asked = refl
