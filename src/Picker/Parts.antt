-- ===== src/Picker/Parts.antt =====
-- src/mattermost/model-picker.ts: the references to models, the commands that open the picker, and its
-- buttons.
use Prim.Native.Char.{code}
use Prim.Native.String.{[], ◌∷◌}
use openclaw_mattermost_cust.Base.{
  ℕ, ◌&&◌, ◌||◌, not, Bool, true, false, String, Option, none, some, List, [], ◌∷◌, eqb, or_else,
  if◌then◌else◌,
}
use openclaw_mattermost_cust.Base.Text.{
  is_space, collapse, trim, is_empty, truthy, concat, same_ignoring_case,
}
use openclaw_mattermost_cust.Picker.Context.{
  Number, Context, Action, providers, back, listed, select, apply, PickerState, of_providers,
  of_back, of_list, of_select, of_apply, Sdk, normalize_page, build_context,
}

pub data Entry : Type 0 where
  summary providers_entry : Entry
  models_entry : String → Entry

pub data Style : Type 0 where
  default primary : Style

pub record Button : Type 0 where
  pub id : String
  pub text : String
  pub style : Option Style
  pub context : Context

pub record View : Type 0 where
  pub text : String
  pub buttons : List (List Button)

pub record ModelRef : Type 0 where
  pub provider : String
  pub model : String

-- What `.` does not match.
abbrev pub is_line_break : ℕ → Bool
is_line_break c = eqb c 10 || eqb c 13 || eqb c 0x2028 || eqb c 0x2029

-- The text before the first `/` and the one after it.
unfoldable pub split_slash : String → Option (String × String)
split_slash [] = none
split_slash (c ∷ s) =
    if eqb (code c) 47
    then some ("", s)
    else elim (split_slash s) [ none ↦ none | some (p, m) ↦ some (c ∷ p, m) ]

abbrev pub one_line : String → Bool
one_line [] = true
one_line (c ∷ s) = not (is_line_break (code c)) && one_line s

abbrev pub has_space : String → Bool
has_space [] = false
has_space (c ∷ s) = is_space (code c) || has_space s

-- The text after a prefix, in any case.
unfoldable pub after_prefix : String → String → Option String
after_prefix [] s = some s
after_prefix (c ∷ p) [] = none
after_prefix (c ∷ p) (d ∷ s) =
    if same_ignoring_case (c ∷ []) (d ∷ []) then after_prefix p s else none

abbrev pub action_id : Action → String
action_id providers = "mdlprov"
action_id listed = "mdllist"
action_id select = "mdlsel"
action_id apply = "mdlapply"
action_id back = "mdlback"

abbrev pub truthy_text : Option String → Option String
truthy_text o = if truthy o then o else none

pub record ButtonParams : Type 0 where
  pub action : Action
  pub owner : String
  pub text : String
  pub provider : Option String
  pub page : Option Number
  pub model : Option String
  pub runtime : Option String
  pub style : Option Style

module _ (sdk : Sdk) where
  open sdk use {normalize_provider_id, normalize_optional, digest, show, runtime_choices}

  abbrev ref_of : String → Option String → Option ModelRef
  ref_of provider none = none
  ref_of provider (some model) =
      if is_empty provider then none else some (record { provider = provider; model = model })

  -- The match of `^([^/]+)\/(.+)$`.
  abbrev matched : Option (String × String) → Option ModelRef
  matched none = none
  matched (some (p, m)) =
      if is_empty p || is_empty m || not (one_line m)
      then none
      else ref_of (normalize_provider_id p) (normalize_optional m)

  abbrev split_trimmed : Option String → Option ModelRef
  split_trimmed none = none
  split_trimmed (some trimmed) = matched (split_slash trimmed)

  unfoldable pub split_model_ref : Option String → Option ModelRef
  unfolding split_slash
  split_model_ref none = none
  split_model_ref (some ref) = split_trimmed (normalize_optional ref)

  abbrev provider_entry : Option String → Option Entry
  provider_entry none = none
  provider_entry (some rest) =
      if is_empty rest || has_space rest
      then none
      else some (models_entry (normalize_provider_id rest))

  unfoldable pub resolve_entry : String → Option Entry
  unfolding trim collapse same_ignoring_case after_prefix is_space
  resolve_entry command =
      let normalized = collapse false (trim command) in
      if same_ignoring_case normalized "/model"
      then some summary
      else if same_ignoring_case normalized "/models"
      then some providers_entry
      else provider_entry (after_prefix "/models " normalized)

  -- `normalizeStringifiedOptionalString(model) ?? ""`, which on texts is the other normalisation.
  abbrev model_text : Option String → String
  model_text none = ""
  model_text (some m) = or_else (normalize_optional m) ""

  abbrev provider_text : Option String → String
  provider_text p = normalize_provider_id (or_else p "")

  abbrev pub state_for : Action → ButtonParams → PickerState
  state_for providers b = of_providers b.owner
  state_for back b = of_back b.owner
  state_for listed b = of_list b.owner (provider_text b.provider) (normalize_page b.page)
  state_for select b =
      of_select b.owner (provider_text b.provider) (normalize_page b.page) (model_text b.model)
        (truthy_text b.runtime)
  state_for apply b =
      of_apply b.owner (provider_text b.provider) (normalize_page b.page) (model_text b.model)
        (truthy_text b.runtime)

  unfoldable pub build_button : ButtonParams → Button
  unfolding normalize_page
  build_button b = record {
    id = concat (action_id b.action ∷ digest (state_for b.action b) ∷ []);
    text = b.text;
    style = b.style;
    context = build_context (state_for b.action b);
  }
