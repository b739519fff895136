-- ===== src/Picker/Runtime.antt =====
-- src/mattermost/model-picker.ts: the view of the runtimes of a model.
use openclaw_mattermost_cust.Base.{
  ℕ, String, ◌==◌, Option, none, some, List, [], ◌∷◌, ◌++◌, map, or_else, if◌then◌else◌,
}
use openclaw_mattermost_cust.Base.Text.{concat, join}
use openclaw_mattermost_cust.Picker.Context.{listed, apply, Choice, ModelsData, Sdk}
use openclaw_mattermost_cust.Picker.Parts.{primary, Button, View, ButtonParams, build_button}
use openclaw_mattermost_cust.Picker.Views.{page_number, style_of}

module _ (sdk : Sdk) where
  open sdk use {normalize_optional, runtime_choices}

  unfoldable pub current_runtime : Option String → String
  current_runtime none = "auto"
  current_runtime (some stored) = or_else (normalize_optional stored) "auto"

  abbrev applying : String → String → String → ℕ → ButtonParams
  applying owner provider model page = record {
    action = apply;
    owner = owner;
    text = "Apply model (keep runtime)";
    provider = some provider;
    page = page_number page;
    model = some model;
    runtime = none;
    style = some primary;
  }

  abbrev pub choice_button : String → String → String → ℕ → String → Choice → Button
  choice_button owner provider model page runtime choice =
      let is_current = choice.id == runtime in
      build_button sdk (record (applying owner provider model page) {
        runtime = some choice.id;
        text = concat ("Use " ∷ choice.label ∷ (if is_current then " [current]" else "") ∷ []);
        style = style_of sdk is_current;
      })

  abbrev pub runtime_rows :
      Option (List Choice) → String → String → String → ℕ → String → List (List Button)
  runtime_rows none owner provider model page runtime =
      (build_button sdk (applying owner provider model page) ∷ []) ∷ []
  runtime_rows (some choices) owner provider model page runtime =
      map (λ c. choice_button owner provider model page runtime c ∷ []) choices

  abbrev confirmation : Option (List Choice) → String
  confirmation (some []) =
      "No runtime is currently available for this model. Reopen /models to refresh."
  confirmation _ = "Confirm how to run this model:"

  unfoldable pub runtime_view : String → ModelsData → String → String → ℕ → String → View
  runtime_view owner models provider model page runtime =
      let choices = runtime_choices models provider model in
      record {
        text = join "\n" (
            concat ("Selected model: " ∷ provider ∷ "/" ∷ model ∷ [])
            ∷ concat ("Current runtime setting: " ∷ runtime ∷ [])
            ∷ ""
            ∷ confirmation choices
            ∷ map (λ c. concat (c.label ∷ ": " ∷ c.description ∷ [])) (or_else choices []));
        buttons =
            runtime_rows choices owner provider model page runtime
            ++ (build_button sdk (record (applying owner provider model page) {
              action = listed;
              text = "Back to models";
              style = none;
            })
                ∷ [])
              ∷ [];
      }
