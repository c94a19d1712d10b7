-- ===== src/Web/Preferences.antt =====
-- web/lib/display-preferences.js: the display preferences and their normal form.
pub mod Laws
use Prim.Native.String.{◌++◌}
use shore_sentinel_app.Base.{
  String, Bool, true, false, not, ◌&&◌, Option, none, some, List, [], ◌∷◌, map, one_of, str_eq,
  if◌then◌else◌,
}
use shore_sentinel_app.Value.{Value, undef, null, str, get, truthy, is_text, text_of}
use shore_sentinel_app.Web.RunStatus.{is_one_of}

-- An entry of `DISPLAY_PREFERENCE_OPTIONS`.
pub record Choice : Type 0 where
  pub value : String
  pub label : String
  pub summary : String

-- `DISPLAY_PREFERENCE_OPTIONS`.
abbrev pub density_options : List Choice
density_options =
    record {
      value = "comfortable";
      label = "Comfortable";
      summary = "Balanced spacing and panel padding for the default control-plane rhythm.";
    }
    ∷ record {
      value = "compact";
      label = "Compact";
      summary =
          "Tighter spacing for denser screens, longer lists, and more information per viewport.";
    }
    ∷ []

abbrev pub contrast_options : List Choice
contrast_options =
    record {
      value = "standard";
      label = "Standard contrast";
      summary = "Keeps the current dark palette with softer surfaces and calmer contrast.";
    }
    ∷ record {
      value = "high";
      label = "High contrast";
      summary = "Strengthens borders, text, and surfaces for clearer separation and visibility.";
    }
    ∷ []

abbrev pub effects_options : List Choice
effects_options =
    record {
      value = "full";
      label = "Full effects";
      summary = "Retains the glow, blur, and layered glass treatment used across the app.";
    }
    ∷ record {
      value = "reduced";
      label = "Reduced effects";
      summary = "Flattens blur, glow, and shadows to keep the interface calmer and lighter.";
    }
    ∷ []

pub record Preferences : Type 0 where
  pub density : String
  pub contrast : String
  pub effects : String

-- `DISPLAY_PREFERENCE_DEFAULTS`.
abbrev pub display_preference_defaults : Preferences
display_preference_defaults = record {
  density = "comfortable";
  contrast = "standard";
  effects = "full";
}

-- `options.map((option) => option.value)`.
abbrev pub values : List Choice → List String
values = map (λ option. option.value)

-- `normalizeChoice`.
abbrev pub normalize_choice : Value → List String → String → String
normalize_choice (str s) allowed fallback = if one_of allowed s then s else fallback
normalize_choice undef allowed fallback = fallback
normalize_choice _ allowed fallback = fallback

-- The choices of `normalizeDisplayPreferences`, for an input whose fields can be read.
abbrev pub normalize_choices : Value → Preferences
normalize_choices input = record {
  density =
      normalize_choice (get "density" input) (values density_options)
        display_preference_defaults.density;
  contrast =
      normalize_choice (get "contrast" input) (values contrast_options)
        display_preference_defaults.contrast;
  effects =
      normalize_choice (get "effects" input) (values effects_options)
        display_preference_defaults.effects;
}

-- `normalizeDisplayPreferences`: undefined is replaced by an empty object, and null throws.
unfoldable pub normalize_display_preferences : Value → Option Preferences
normalize_display_preferences null = none
normalize_display_preferences undef = some (normalize_choices undef)
normalize_display_preferences input = some (normalize_choices input)

-- `describeDisplayPreferences`.
unfoldable pub describe_display_preferences : Value → Option String
describe_display_preferences preferences = elim (normalize_display_preferences preferences) [
  | none ↦ none
  | some current ↦
      some (current.density ++ " · " ++ current.contrast ++ " · " ++ current.effects ++ " effects")
]

-- `normalize` of `displayPreferencesBootstrapScript`, for the set of allowed values and the default
-- of a key; a set of texts has no other value.
abbrev pub normalize : Value → List String → String → String
normalize value allowed fallback =
    if truthy value && (is_text value && one_of allowed (text_of value))
    then text_of value
    else fallback

-- What `displayPreferencesBootstrapScript` finds in the browser: reading the storage or the media
-- queries may throw.
pub data Stored : Type 0 where
  absent : (more_contrast less_motion : Bool) → Stored
  parsed : Value → Stored
  broken : Stored

-- The `prefs` that the script applies.
unfoldable pub bootstrap_preferences : Stored → Preferences
bootstrap_preferences (absent more_contrast less_motion) = record {
  density = display_preference_defaults.density;
  contrast = if more_contrast then "high" else display_preference_defaults.contrast;
  effects = if less_motion then "reduced" else display_preference_defaults.effects;
}
bootstrap_preferences (parsed v) = record {
  density =
      normalize (get "density" v) (values density_options) display_preference_defaults.density;
  contrast =
      normalize (get "contrast" v) (values contrast_options) display_preference_defaults.contrast;
  effects =
      normalize (get "effects" v) (values effects_options) display_preference_defaults.effects;
}
bootstrap_preferences broken = display_preference_defaults
