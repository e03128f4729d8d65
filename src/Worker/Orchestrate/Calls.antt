-- ===== src/Worker/Orchestrate/Calls.antt =====
-- The tool calls of an answer of the language model.
use taffy_assistant.Base.{
  String, Option, List, [], ◌∷◌, ◌++◌, ◌≡◌, refl, ap, ◌∙◌, append_assoc, nil_right,
}
use taffy_assistant.Json.{Raw, doc, malformed, empty}
use taffy_assistant.Protocol.{DeviceContext, SceneContext}
use taffy_assistant.Worker.Config.{AppConfig}
use taffy_assistant.Worker.Llm.{Http, LlmMessage, ToolCall, ok, call_llm_with_tools}
use taffy_assistant.Worker.Session.{remember_tool_call}
use taffy_assistant.Worker.Orchestrate.{
  ToServer, device_command, Desk, Parser, commanded, issue_tool_calls, handle_llm_with_tools,
}

module _ ⦃j : Parser⦄ where
  abbrev command_for : ToolCall → Raw → List ToServer
  command_for tc (doc args) = device_command tc.id tc.function.name args ∷ []
  command_for tc (malformed t) = []
  command_for tc empty = []

  -- The device commands for the calls whose arguments are JSON, in order.
  abbrev pub commands_for : List ToolCall → List ToServer
  commands_for [] = []
  commands_for (tc ∷ rest) = command_for tc (j.parse tc.function.arguments) ++ commands_for rest

  commanded-sent :
      (tc : ToolCall) (args : Raw) (d : Desk)
      → ((commanded tc args d).sent ≡ d.sent ++ command_for tc args)
        × ((commanded tc args d).jobs ≡ d.jobs)
  commanded-sent tc (doc args) d = (refl, refl)
  commanded-sent tc (malformed t) d = (nil_right d.sent, refl)
  commanded-sent tc empty d = (nil_right d.sent, refl)

  issue_tool_calls-sent :
      (calls : List ToolCall) (d : Desk)
      → ((issue_tool_calls calls d).sent ≡ d.sent ++ commands_for calls)
        × ((issue_tool_calls calls d).jobs ≡ d.jobs)
  unfolding issue_tool_calls
  issue_tool_calls-sent [] d = (nil_right d.sent, refl)
  issue_tool_calls-sent (tc ∷ rest) d =
      let d' : Desk = commanded tc (j.parse tc.function.arguments) (record d {
        session = remember_tool_call tc.id tc.function.name tc.function.arguments d.session;
      }) in
      let (sent, jobs) = issue_tool_calls-sent rest d' in
      let (sent', jobs') = commanded-sent tc (j.parse tc.function.arguments) _ in
      (
        sent
            ∙ ap (λ ms. ms ++ commands_for rest) sent'
            ∙ append_assoc d.sent (command_for tc (j.parse tc.function.arguments))
                (commands_for rest),
        jobs ∙ jobs',
      )

  -- An answer of the language model that calls tools starts no background job and sends, beside what
  -- was sent before, exactly one device command for every call whose arguments are JSON, in the order
  -- of the calls; the calls whose arguments are none are dropped, and if that are all of them, nothing
  -- at all is sent.
  pub handle_llm_with_tools-commands :
      (cfg : AppConfig) (http : Http) (said : String) (devices : List DeviceContext)
      (scenes : List SceneContext) (d : Desk) (e : Option String) (tc : ToolCall)
      (calls : List ToolCall) (content : String) (others : List LlmMessage)
      → call_llm_with_tools http cfg.llm said devices scenes
        ≡ ok (record {
          choices = record { content = content; tool_calls = tc ∷ calls } ∷ others;
          error = e;
        })
      → ((handle_llm_with_tools cfg http said devices scenes d).sent
          ≡ d.sent ++ commands_for (tc ∷ calls))
        × ((handle_llm_with_tools cfg http said devices scenes d).jobs ≡ d.jobs)
  unfolding handle_llm_with_tools
  handle_llm_with_tools-commands cfg http said devices scenes d e tc calls content others h =
      rw h (issue_tool_calls-sent (tc ∷ calls) d)
