-- ===== src/Worker/Llm.antt =====
-- The calls of the language model: worker/internal/handler/llm.go, and the response of tools.go
pub mod Fallback
use taffy_assistant.Base.{
  ℕ, String, Bool, true, false, Option, none, some, List, [], ◌∷◌, ◌==◌, ◌⧺◌, if◌then◌else◌,
}
use taffy_assistant.Protocol.{DeviceContext, SceneContext, function_control_device}
use taffy_assistant.Worker.Config.{LlmProvider, LlmConfig}
use taffy_assistant.Worker.Prompt.{build_system_prompt}

pub record FunctionCall : Type 0 where
  pub name : String
  pub arguments : String

pub record ToolCall : Type 0 where
  pub id : String
  pub function : FunctionCall

-- `LLMMessage` of a choice.
pub record LlmMessage : Type 0 where
  pub content : String
  pub tool_calls : List ToolCall

-- `LLMResponse`, with the message of its error, if it has one.
pub record LlmResponse : Type 0 where
  pub choices : List LlmMessage
  pub error : Option String

-- One entry of `messages`.
pub data ChatMessage : Type 0 where
  system : String → ChatMessage
  user : String → ChatMessage
  assistant_call : String → String → String → ChatMessage
  tool : String → String → ChatMessage

-- `llmRequest`; `tools` says whether it brings the tools of `BuildTools`.
pub record LlmRequest : Type 0 where
  pub model : String
  pub messages : List ChatMessage
  pub tools : Bool

-- A text for the error, or the value.
pub data Answer (A : Type 0) : Type 0 where
  ok : A → Answer A
  err : String → Answer A

-- The provider's HTTP service: the decoded body, or the error of building, sending or decoding.
abbrev pub Http : Type 0
Http = LlmProvider → LlmRequest → Answer LlmResponse

abbrev pub api_checked : LlmResponse → Option String → Answer LlmResponse
api_checked r none = ok r
api_checked r (some message) = if message == "" then ok r else err ("llm api error: " ⧺ message)

-- `postLLM`.
unfoldable pub post_llm : Http → LlmProvider → LlmRequest → Answer LlmResponse
post_llm http p req = elim (http p req) [ err t ↦ err t | ok r ↦ api_checked r r.error ]

-- The request for a provider, whose model stands in for an empty one.
abbrev pub for_provider : LlmProvider → LlmRequest → LlmRequest
for_provider p req = if req.model == "" then record req { model = p.model } else req

abbrev pub Tried : Type 0
Tried = List LlmProvider × Answer LlmResponse

abbrev pub or_next : LlmProvider → (String → Tried) → Answer LlmResponse → Tried
or_next p next (ok r) = (p ∷ [], ok r)
or_next p next (err t) = let (called, r) = next t in (p ∷ called, r)

-- The loop over the providers: the calls that were made, and the first success or the last error.
unfoldable pub try_providers : Http → LlmRequest → String → List LlmProvider → Tried
unfolding post_llm
try_providers http req last [] = ([], err ("all llm providers failed: " ⧺ last))
try_providers http req last (p ∷ rest) =
    or_next p (λ t. try_providers http req t rest) (post_llm http p (for_provider p req))

-- `postLLMWithFallback`, with the providers that were called.
unfoldable pub post_llm_with_fallback :
    Http → LlmConfig → LlmRequest → List LlmProvider × Answer LlmResponse
unfolding try_providers
post_llm_with_fallback http c req = elim c.providers [
  | [] ↦ ([], err "no llm provider configured")
  | p ∷ rest ↦ try_providers http req "" (p ∷ rest)
]

-- `callLLMWithTools`.
unfoldable pub call_llm_with_tools :
    Http → LlmConfig → String → List DeviceContext → List SceneContext → Answer LlmResponse
unfolding post_llm_with_fallback build_system_prompt
call_llm_with_tools http c said devices scenes =
    (post_llm_with_fallback http c (record {
      model = "";
      messages = system (build_system_prompt c.system_prompt devices scenes) ∷ user said ∷ [];
      tools = true;
    })).1

abbrev pub second_messages : String → String → String → String → String → List ChatMessage
second_messages prompt tool_id name arguments result =
    system prompt
    ∷ user "（接上轮设备控制请求）"
    ∷ assistant_call tool_id (if name == "" then function_control_device else name)
        (if arguments == "" then "{}" else arguments)
    ∷ tool tool_id result
    ∷ []

abbrev content_of : Answer LlmResponse → Answer String
content_of (err t) = err t
content_of (ok r) = elim r.choices [
  | [] ↦ err "llm response has no choices"
  | m ∷ rest ↦ ok m.content
]

-- `callLLMSecondRound`; the pending call's name and arguments.
unfoldable pub call_llm_second_round :
    Http
    → LlmConfig
    → String
    → String
    → String
    → String
    → List DeviceContext
    → List SceneContext
    → Answer String
unfolding post_llm_with_fallback build_system_prompt
call_llm_second_round http c result tool_id name arguments devices scenes =
    content_of
      (post_llm_with_fallback http c (record {
        model = "";
        messages =
            second_messages (build_system_prompt c.system_prompt devices scenes) tool_id name
              arguments result;
        tools = false;
      })).1
