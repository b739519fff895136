-- ===== src/Picker/Context.antt =====
-- src/mattermost/model-picker.ts: the states of the picker, the context of a button, and the parser
-- of a context that comes back. What the code calls of the plugin SDK, of the hash and of number
-- printing is the record `Sdk`.
use openclaw_mattermost_cust.Base.{
  ℕ, ◌≡◌, Bool, true, false, not, ◌||◌, String, ◌==◌, Option, none, some, List, [], ◌∷◌, max,
  or_else, if◌then◌else◌,
}
use openclaw_mattermost_cust.Base.Int.{ℤ, pos, pos_part}
use openclaw_mattermost_cust.Base.Text.{is_empty}

-- A number of the runtime: a finite one by its floor, which is all that the code reads of it.
pub data Number : Type 0 where
  finite : ℤ → Number
  not_finite : Number

pub data Value : Type 0 where
  undefined other : Value
  flag : Bool → Value
  number : Number → Value
  text : String → Value

-- An object, by its own fields.
abbrev pub Context : Type 0
Context = List (String × Value)

pub data Action : Type 0 where
  providers back listed select apply : Action

pub data PickerState : Type 0 where
  of_providers of_back : String → PickerState
  of_list : String → String → ℕ → PickerState
  of_select of_apply : String → String → ℕ → String → Option String → PickerState

-- The runtime choices of a model, each with its id, label and description.
pub record Choice : Type 0 where
  pub id : String
  pub label : String
  pub description : String

pub record ModelsData : Type 0 where
  pub providers : List String
  pub by_provider : String → Option (List String)
  pub default_provider : String
  pub default_model : String

-- The five actions, as texts.
abbrev pub is_word : String → Bool
is_word w = w == "providers" || w == "back" || w == "list" || w == "select" || w == "apply"

-- The SDK's normalisations give a text that they leave as it is, and an optional text that they
-- return is not empty; they leave the names of the actions,
-- and make nothing of an empty text. `digest` is the first twelve hexadecimal digits of the hash of a state.
pub record Sdk : Type 0 where
  pub normalize_provider_id : String → String
  pub normalize_optional : String → Option String
  pub parse_strict_integer : String → Option ℤ
  pub digest : PickerState → String
  pub show : ℕ → String
  pub runtime_choices : ModelsData → String → String → Option (List Choice)
  pub provider_normal :
      (s : String) → normalize_provider_id (normalize_provider_id s) ≡ normalize_provider_id s
  pub optional_normal :
      (s t : String)
      → normalize_optional s ≡ some t
      → (normalize_optional t ≡ some t) × (is_empty t ≡ false)
  pub optional_empty : normalize_optional "" ≡ none
  pub word_normal : (w : String) → is_word w ≡ true → normalize_optional w ≡ some w

unfoldable pub get_value : String → Context → Value
get_value key [] = undefined
get_value key ((k, v) ∷ rest) = if k == key then v else get_value key rest

abbrev pub is_true : Value → Bool
is_true (flag b) = b
is_true _ = false

abbrev pub text_or : Value → String → String
text_or (text s) fallback = s
text_or _ fallback = fallback

unfoldable pub read_context_string : String → Context → String
read_context_string key context = text_or (get_value key context) ""

unfoldable pub normalize_page : Option Number → ℕ
normalize_page none = 1
normalize_page (some not_finite) = 1
normalize_page (some (finite z)) = max 1 (pos_part z)

abbrev pub context_key : String
context_key = "oc_model_picker"

abbrev pub page_value : ℕ → Value
page_value n = number (finite (pos n))

abbrev pub runtime_field : Option String → Context
runtime_field none = []
runtime_field (some r) = ("runtime", text r) ∷ []

abbrev chosen_fields : String → String → String → ℕ → String → Option String → Context
chosen_fields action owner provider page model runtime =
    ("action", text action)
    ∷ ("ownerUserId", text owner)
    ∷ ("provider", text provider)
    ∷ ("page", page_value page)
    ∷ ("model", text model)
    ∷ runtime_field runtime

abbrev pub state_fields : PickerState → Context
state_fields (of_providers owner) = ("action", text "providers") ∷ ("ownerUserId", text owner) ∷ []
state_fields (of_back owner) = ("action", text "back") ∷ ("ownerUserId", text owner) ∷ []
state_fields (of_list owner provider page) =
    ("action", text "list")
    ∷ ("ownerUserId", text owner)
    ∷ ("provider", text provider)
    ∷ ("page", page_value page)
    ∷ []
state_fields (of_select owner provider page model runtime) =
    chosen_fields "select" owner provider page model runtime
state_fields (of_apply owner provider page model runtime) =
    chosen_fields "apply" owner provider page model runtime

unfoldable pub build_context : PickerState → Context
build_context state = (context_key, flag true) ∷ state_fields state

abbrev pub optional_or : Option String → String
optional_or o = or_else o ""

-- The end of the parser, for `select` and `apply`.
abbrev pub parse_chosen : Bool → String → String → ℕ → String → Option String → Option PickerState
parse_chosen applies owner provider page model runtime =
    if is_empty model
    then none
    else if applies
    then some (of_apply owner provider page model runtime)
    else some (of_select owner provider page model none)

module _ (sdk : Sdk) where
  open sdk use {normalize_provider_id, normalize_optional, parse_strict_integer, digest}

  abbrev strict_integer : Option ℤ → Option Number
  strict_integer none = none
  strict_integer (some z) = some (finite z)

  abbrev number_of : Value → Option Number
  number_of (number (finite z)) = some (finite z)
  number_of (number not_finite) = none
  number_of (text s) = strict_integer (parse_strict_integer s)
  number_of _ = none

  unfoldable pub read_context_number : String → Context → Option Number
  read_context_number key context = number_of (get_value key context)

  abbrev pub parse_action : String → String → Context → Option PickerState
  parse_action action owner context =
      let provider = normalize_provider_id (read_context_string "provider" context) in
      let page = normalize_page (read_context_number "page" context) in
      let model = optional_or (normalize_optional (read_context_string "model" context)) in
      let runtime = normalize_optional (read_context_string "runtime" context) in
      if action == "providers"
      then some (of_providers owner)
      else if action == "back"
      then some (of_back owner)
      else if is_empty provider
      then none
      else if action == "list"
      then some (of_list owner provider page)
      else if action == "select" || action == "apply"
      then parse_chosen (action == "apply") owner provider page model runtime
      else none

  unfoldable pub parse_context : Context → Option PickerState
  parse_context context =
      let owner = optional_or (normalize_optional (read_context_string "ownerUserId" context)) in
      let action = optional_or (normalize_optional (read_context_string "action" context)) in
      if not (is_true (get_value context_key context)) || is_empty owner
      then none
      else parse_action action owner context
