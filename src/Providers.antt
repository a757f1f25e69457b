-- ===== src/Providers.antt =====
-- The registry of providers (src/providers/registry.c, src/core/provider_registry.h) and their lists
-- of models (src/providers/*/*_models.c).
use free_cli.Base.{ℕ, List, [], ◌∷◌, Option, none, some, if◌then◌else◌, str_eq, bytes}

pub record ProviderInfo : Type 0 where
  pub id : List ℕ
  pub display_name : List ℕ
  pub models : List (List ℕ)

abbrev provider_xai_models : List (List ℕ)
provider_xai_models =
    bytes "grok-3-fast"
    ∷ bytes "grok-3"
    ∷ bytes "grok-3-mini-fast"
    ∷ bytes "grok-3-mini"
    ∷ bytes "grok-2-1212"
    ∷ []

abbrev provider_anthropic_models : List (List ℕ)
provider_anthropic_models =
    bytes "claude-opus-4-5"
    ∷ bytes "claude-sonnet-4-5"
    ∷ bytes "claude-haiku-4-5"
    ∷ bytes "claude-3-5-sonnet-20241022"
    ∷ bytes "claude-3-5-haiku-20241022"
    ∷ bytes "claude-3-opus-20240229"
    ∷ []

abbrev provider_google_models : List (List ℕ)
provider_google_models =
    bytes "gemini-2.5-flash"
    ∷ bytes "gemini-2.5-pro"
    ∷ bytes "gemini-2.0-flash"
    ∷ bytes "gemini-1.5-pro"
    ∷ bytes "gemini-1.5-flash"
    ∷ []

abbrev provider_ibm_models : List (List ℕ)
provider_ibm_models =
    bytes "ibm/granite-3-8b-instruct"
    ∷ bytes "ibm/granite-3-2b-instruct"
    ∷ bytes "ibm/granite-3-3-8b-instruct"
    ∷ bytes "meta-llama/llama-3-3-70b-instruct"
    ∷ bytes "meta-llama/llama-3-1-70b-instruct"
    ∷ []

abbrev pub xai : ProviderInfo
xai = record { id = bytes "xai"; display_name = bytes "xAI (Grok)"; models = provider_xai_models }

abbrev pub providers : List ProviderInfo
providers =
    xai
    ∷ record {
      id = bytes "anthropic";
      display_name = bytes "Anthropic (Claude)";
      models = provider_anthropic_models;
    }
    ∷ record {
      id = bytes "google";
      display_name = bytes "Google (Gemini)";
      models = provider_google_models;
    }
    ∷ record {
      id = bytes "ibm";
      display_name = bytes "IBM (watsonx)";
      models = provider_ibm_models;
    }
    ∷ []

unfoldable pub find_in : List ProviderInfo → List ℕ → Option ProviderInfo
find_in [] id = none
find_in (p ∷ ps) id = if str_eq p.id id then some p else find_in ps id

unfoldable pub provider_registry_find : Option (List ℕ) → Option ProviderInfo
provider_registry_find none = some xai
provider_registry_find (some id) = find_in providers id
