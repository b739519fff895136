-- ===== src/Picker/Views.antt =====
-- src/mattermost/model-picker.ts: the summary, the view of the providers and that of the models.
use openclaw_mattermost_cust.Base.{
  ℕ, ◌+◌, ◌-◌, ◌&&◌, Bool, true, false, String, ◌==◌, Option, none, some, List, [], ◌∷◌, ◌++◌, map,
  length, if◌then◌else◌,
}
use openclaw_mattermost_cust.Base.Int.{pos}
use openclaw_mattermost_cust.Base.Sorting.{sort}
use openclaw_mattermost_cust.Base.Text.{concat, join, utf16_le}
use openclaw_mattermost_cust.Picker.Context.{
  Number, finite, providers, back, listed, select, ModelsData, Sdk,
}
use openclaw_mattermost_cust.Picker.Pages.{Page, paginate_items}
use openclaw_mattermost_cust.Picker.Parts.{
  Style, default, primary, Button, View, ModelRef, split_model_ref, ButtonParams, build_button,
}
use openclaw_mattermost_cust.Picker.Current.{nil_or}

abbrev pub page_number : ℕ → Option Number
page_number n = some (finite (pos n))

module _ (sdk : Sdk) where
  open sdk use {normalize_provider_id, normalize_optional, show, runtime_choices}

  abbrev pub get_provider_models : ModelsData → String → List String
  get_provider_models models provider =
      sort utf16_le (nil_or (models.by_provider (normalize_provider_id provider)))

  abbrev line_of : Option ModelRef → String
  line_of none = "Current: default"
  line_of (some r) = concat ("Current: " ∷ r.provider ∷ "/" ∷ r.model ∷ [])

  abbrev pub current_model_line : Option String → String
  current_model_line current = line_of (split_model_ref sdk current)

  abbrev pub plain : String → ButtonParams
  plain owner = record {
    action = back;
    owner = owner;
    text = "Back to providers";
    provider = none;
    page = none;
    model = none;
    runtime = none;
    style = none;
  }

  abbrev pub back_button : String → Button
  back_button owner = build_button sdk (plain owner)

  unfoldable pub summary_view : String → Option String → View
  summary_view owner current = record {
    text = join "\n" (
        current_model_line current
        ∷ ""
        ∷ "Tap below to browse models, or use:"
        ∷ "/oc_model <provider/model> to switch"
        ∷ "Choose a model, then confirm how to run it."
        ∷ "/oc_model <provider/model> --runtime <runtime> to switch directly"
        ∷ "/oc_model status for details"
        ∷ []);
    buttons =
        (build_button sdk (record (plain owner) {
          action = providers;
          text = "Browse providers";
          style = some primary;
        })
          ∷ [])
        ∷ [];
  }

  abbrev is_provider : Option ModelRef → String → Bool
  is_provider none provider = false
  is_provider (some r) provider = provider == r.provider

  abbrev pub style_of : Bool → Option Style
  style_of true = some primary
  style_of false = some default

  abbrev pub provider_button : ModelsData → String → Option ModelRef → String → Button
  provider_button models owner current provider = build_button sdk (record (plain owner) {
    action = listed;
    text =
        concat (provider ∷ " (" ∷ show (length (nil_or (models.by_provider provider))) ∷ ")" ∷ []);
    provider = some provider;
    page = page_number 1;
    style = style_of (is_provider current provider);
  })

  unfoldable pub provider_view : String → ModelsData → Option String → View
  provider_view owner models current = record {
    text = join "\n" (current_model_line current ∷ "" ∷ "Select a provider:" ∷ []);
    buttons =
        map (λ p. provider_button models owner (split_model_ref sdk current) p ∷ [])
          models.providers;
  }

  abbrev is_model : Option ModelRef → String → String → Bool
  is_model none provider model = false
  is_model (some r) provider model = r.provider == provider && r.model == model

  abbrev pub model_button : String → String → ℕ → Option ModelRef → String → Button
  model_button owner provider page current model =
      let is_current = is_model current provider model in
      build_button sdk (record (plain owner) {
        action = select;
        text = if is_current then concat (model ∷ " [current]" ∷ []) else model;
        provider = some provider;
        model = some model;
        page = page_number page;
        style = style_of is_current;
      })

  abbrev pub list_button : String → String → String → ℕ → Button
  list_button owner label provider page = build_button sdk (record (plain owner) {
    action = listed;
    text = label;
    provider = some provider;
    page = page_number page;
  })

  abbrev pub nav_row : String → String → Page String → List Button
  nav_row owner provider page =
      (if page.has_prev then list_button owner "Prev" provider (page.page - 1) ∷ [] else [])
      ++ (if page.has_next then list_button owner "Next" provider (page.page + 1) ∷ [] else [])

  abbrev pub row_of : List Button → List (List Button)
  row_of [] = []
  row_of (b ∷ bs) = (b ∷ bs) ∷ []

  abbrev pub no_models_view : String → String → Option String → View
  no_models_view owner provider current = record {
    text =
        join "\n"
          (current_model_line current ∷ "" ∷ concat ("Unknown provider: " ∷ provider ∷ []) ∷ []);
    buttons = (back_button owner ∷ []) ∷ [];
  }

  abbrev pub page_view : String → String → Option String → Page String → View
  page_view owner provider current page = record {
    text = join "\n" (
        concat ("Models (" ∷ provider ∷ ") - " ∷ show page.total_items ∷ " available" ∷ [])
        ∷ current_model_line current
        ∷ concat ("Page " ∷ show page.page ∷ "/" ∷ show page.total_pages ∷ [])
        ∷ "Select a model to choose how to run it."
        ∷ []);
    buttons =
        map (λ m. model_button owner provider page.page (split_model_ref sdk current) m ∷ [])
          page.items
        ++ (row_of (nav_row owner provider page) ++ (back_button owner ∷ []) ∷ []);
  }

  abbrev pub view_of_models : List String → String → String → Option Number → Option String → View
  view_of_models [] owner provider page current = no_models_view owner provider current
  view_of_models (m ∷ ms) owner provider page current =
      page_view owner provider current (paginate_items (m ∷ ms) page)

  unfoldable pub models_view : String → ModelsData → String → Option Number → Option String → View
  models_view owner models provider page current =
      view_of_models (get_provider_models models (normalize_provider_id provider)) owner
        (normalize_provider_id provider) page current
