-- ===== src/Picker/Tests.antt =====
-- src/mattermost/model-picker.ts: the picker over a small catalogue, and the theorems at it.
use Prim.Native.String.{[], ◌∷◌}
use openclaw_mattermost_cust.Base.{
  arith, ℕ, ◌≡◌, refl, true, false, String, Option, none, some, List, [], ◌∷◌, if◌then◌else◌,
  flatten,
}
use openclaw_mattermost_cust.Base.Text.{is_empty, trim, trim_start, trim_end}
use openclaw_mattermost_cust.Picker.Context.{
  PickerState, of_apply, ModelsData, Sdk, is_word, build_context, parse_context,
}
use openclaw_mattermost_cust.Picker.Parts.{models_entry, resolve_entry, split_model_ref}
use openclaw_mattermost_cust.Picker.Buttons.{parse_context-build_context}
use openclaw_mattermost_cust.Picker.Paging.{pages_from, pages_cover}

abbrev full_or_none : String → Option String
full_or_none s = if is_empty s then none else some s

full_or_none_normal :
    (s t : String) → full_or_none s ≡ some t → (full_or_none t ≡ some t) × (is_empty t ≡ false)
full_or_none_normal [] t e = absurd (cc)
full_or_none_normal (c ∷ s) t e = let same : (c ∷ s) ≡ t = ground arith in rw (← same) (refl, refl)

full_or_none_word : (w : String) → is_word w ≡ true → full_or_none w ≡ some w
full_or_none_word [] h = absurd (cc)
full_or_none_word (c ∷ w) h = refl

abbrev plain : Sdk
plain = record {
  normalize_provider_id = λ s. s;
  normalize_optional = full_or_none;
  parse_strict_integer = λ s. none;
  digest = λ s. "d";
  show = λ n. "n";
  runtime_choices = λ m p s. none;
  provider_normal = λ s. refl;
  optional_normal = full_or_none_normal;
  optional_empty = refl;
  word_normal = full_or_none_word;
}

abbrev catalogue : ModelsData
catalogue = record {
  providers = "openai" ∷ [];
  by_provider = λ p. some ("m2" ∷ "m1" ∷ []);
  default_provider = "openai";
  default_model = "m1";
}

entry_test : resolve_entry plain "  /Models   openai " ≡ some (models_entry "openai")
unfolding resolve_entry trim trim_start trim_end
entry_test = refl

ref_test :
    split_model_ref plain (some "openai/gpt/5")
    ≡ some (record { provider = "openai"; model = "gpt/5" })
unfolding split_model_ref
ref_test = refl

abbrev chosen : PickerState
chosen = of_apply "u" "openai" 2 "m1" (some "r")

parse_context-build_context_example : parse_context plain (build_context chosen) ≡ some chosen
parse_context-build_context_example =
    parse_context-build_context plain chosen
      ((refl, refl), (refl, refl), omega arith, (refl, refl), (refl, refl))

abbrev nine : List ℕ
nine = 1 ∷ 2 ∷ 3 ∷ 4 ∷ 5 ∷ 6 ∷ 7 ∷ 8 ∷ 9 ∷ []

pages_cover_example : flatten (pages_from 1 2 nine) ≡ nine
pages_cover_example = pages_cover nine
