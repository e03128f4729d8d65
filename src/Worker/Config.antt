-- ===== src/Worker/Config.antt =====
-- worker/internal/handler/config.go. `LLMConfig` has the list `Providers` that its methods read.
use taffy_assistant.Base.{
  ℕ, String, Option, none, some, List, [], ◌∷◌, ◌==◌, ◌&&◌, eqb, if◌then◌else◌,
}

pub record LlmProvider : Type 0 where
  pub url : String
  pub api_key : String
  pub model : String

-- `timeout` in seconds; a negative number in the file counts as 0 here, which has the same default.
pub record LlmConfig : Type 0 where
  pub system_prompt : String
  pub timeout : ℕ
  pub providers : List LlmProvider

pub record AppConfig : Type 0 where
  pub asr_ws_url : String
  pub llm : LlmConfig
  pub tts_url : String

-- `os.Getenv`: the empty text where a variable is not set.
abbrev pub Environment : Type 0
Environment = String → String

abbrev pub or_env : String → String → String
or_env value v = if v == "" then value else v

-- A provider made of the environment, if it names any part of one.
abbrev pub env_provider : Environment → List LlmProvider
env_provider env =
    if env "LLM_URL" == "" && (env "LLM_API_KEY" == "" && env "LLM_MODEL" == "")
    then []
    else record { url = env "LLM_URL"; api_key = env "LLM_API_KEY"; model = env "LLM_MODEL" } ∷ []

abbrev pub overridden : Environment → List LlmProvider → List LlmProvider
overridden env [] = []
overridden env (p ∷ rest) =
    record {
      url = or_env p.url (env "LLM_URL");
      api_key = or_env p.api_key (env "LLM_API_KEY");
      model = or_env p.model (env "LLM_MODEL");
    }
    ∷ rest

abbrev pub configured : Environment → List LlmProvider → List LlmProvider
configured env [] = env_provider env
configured env (p ∷ rest) = p ∷ rest

-- `setDefaults`.
unfoldable pub set_defaults : Environment → AppConfig → AppConfig
set_defaults env c = record {
  asr_ws_url =
      or_env (if c.asr_ws_url == "" then "ws://127.0.0.1:9100/v1/asr/stream" else c.asr_ws_url)
        (env "ASR_WS_URL");
  llm = record {
    system_prompt = c.llm.system_prompt;
    timeout = if eqb c.llm.timeout 0 then 30 else c.llm.timeout;
    providers = overridden env (configured env c.llm.providers);
  };
  tts_url = or_env c.tts_url (env "TTS_URL");
}

-- `DefaultConfig`.
unfoldable pub default_config : Environment → AppConfig
unfolding set_defaults
default_config env = set_defaults env (record {
  asr_ws_url = "";
  llm = record { system_prompt = ""; timeout = 0; providers = [] };
  tts_url = "";
})

-- `PrimaryProvider`.
unfoldable pub primary_provider : LlmConfig → Option LlmProvider
primary_provider c = elim c.providers [ [] ↦ none | p ∷ rest ↦ some p ]

-- `FallbackProviders`.
unfoldable pub fallback_providers : LlmConfig → List LlmProvider
fallback_providers c = elim c.providers [ [] ↦ [] | p ∷ rest ↦ rest ]
