-- ===== src/Picker/Current.antt =====
-- src/mattermost/model-picker.ts: the references that are allowed, and the model that is current.
use openclaw_mattermost_cust.Base.{
  String, ◌==◌, Option, none, some, List, [], ◌∷◌, ◌++◌, any, or_else, if◌then◌else◌,
}
use openclaw_mattermost_cust.Base.Text.{trim, is_empty, concat}
use openclaw_mattermost_cust.Picker.Context.{ModelsData}

abbrev pub nil_or : Option (List String) → List String
nil_or models = or_else models []

-- `new Set(...)` of texts, in the order in which they were added.
abbrev pub add_ref : String → List String → List String
add_ref r refs = if any (λ x. x == r) refs then refs else refs ++ r ∷ []

unfoldable pub add_models : String → List String → List String → List String
add_models provider [] refs = refs
add_models provider (m ∷ ms) refs =
    add_models provider ms (add_ref (concat (provider ∷ "/" ∷ m ∷ [])) refs)

unfoldable pub add_providers : ModelsData → List String → List String → List String
add_providers models [] refs = refs
add_providers models (p ∷ ps) refs =
    add_providers models ps (add_models p (nil_or (models.by_provider p)) refs)

unfoldable pub allowed_model_refs : ModelsData → List String
allowed_model_refs models = add_providers models models.providers []

-- What the session store says: it threw, there is no override, or an override of the model with
-- its provider, if that is set.
pub data Stored : Type 0 where
  threw no_override : Stored
  override : Option String → String → Stored

abbrev pub fallback_ref : ModelsData → String
fallback_ref models = concat (models.default_provider ∷ "/" ∷ models.default_model ∷ [])

abbrev pub ref_or : String → String → String → String
ref_or fallback provider model =
    if is_empty provider then fallback else concat (provider ∷ "/" ∷ model ∷ [])

abbrev pub own_provider : Option String → String → String
own_provider none fallback = fallback
own_provider (some p) fallback = if is_empty p then fallback else p

unfoldable pub current_model : ModelsData → Stored → String
current_model models threw = fallback_ref models
current_model models no_override = fallback_ref models
current_model models (override provider model) =
    if is_empty model
    then fallback_ref models
    else ref_or (fallback_ref models) (trim (own_provider provider models.default_provider)) model
