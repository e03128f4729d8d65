-- ===== src/Worker/Llm/Fallback.antt =====
-- Which providers are asked, and whose answer is taken.
use taffy_assistant.Base.{
  String, Bool, true, Option, none, some, List, [], ◌∷◌, ◌≡◌, refl, ap, sym, ◌∙◌, ◌⊎◌, inl, inr,
  Bool-cases, ◌==◌, if◌then◌else◌,
}
use taffy_assistant.Worker.Config.{LlmProvider, LlmConfig}
use taffy_assistant.Worker.Llm.{
  Answer, ok, err, Http, LlmRequest, LlmResponse, post_llm, for_provider, api_checked,
  try_providers, post_llm_with_fallback,
}

-- The request as the provider should get it: with the provider's model if it names none.
abbrev pub addressed : LlmProvider → LlmRequest → LlmRequest
addressed p req = record {
  model = if req.model == "" then p.model else req.model;
  messages = req.messages;
  tools = req.tools;
}

-- A response without an error text in it.
abbrev pub is_clean : Option String → Bool
is_clean none = true
is_clean (some message) = message == ""

abbrev pub usable : Answer LlmResponse → Option LlmResponse
usable (err t) = none
usable (ok r) = if is_clean r.error then some r else none

abbrev pub answer_of : Answer LlmResponse → Option LlmResponse
answer_of (ok r) = some r
answer_of (err t) = none

-- The answer of the first provider that gives one.
abbrev pub first_answer : Http → LlmRequest → List LlmProvider → Option LlmResponse
first_answer http req [] = none
first_answer http req (p ∷ ps) = elim (usable (http p (addressed p req))) [
  | none ↦ first_answer http req ps
  | some r ↦ some r
]

-- The providers up to the first that gives an answer, or all.
abbrev pub until_answer : Http → LlmRequest → List LlmProvider → List LlmProvider
until_answer http req [] = []
until_answer http req (p ∷ ps) =
    p ∷ (elim (usable (http p (addressed p req))) [ none ↦ until_answer http req ps | some r ↦ [] ])

Answer-cases : {A : Type 0} (a : Answer A) → ((x : A) × (a ≡ ok x)) ⊎ ((t : String) × (a ≡ err t))
Answer-cases (ok x) = inl (x, refl)
Answer-cases (err t) = inr (t, refl)

List-cases : {A : Type 0} (xs : List A) → (xs ≡ []) ⊎ ((x : A) × (ys : List A) × (xs ≡ x ∷ ys))
List-cases [] = inl refl
List-cases (x ∷ ys) = inr (x, ys, refl)

for_provider-addressed : (p : LlmProvider) (req : LlmRequest) → for_provider p req ≡ addressed p req
for_provider-addressed p req = elim (Bool-cases (req.model == "")) [
  | inl e ↦ rw e refl
  | inr e ↦ rw e refl
]

checked-usable :
    (r : LlmResponse) (e : Option String)
    → answer_of (api_checked r e) ≡ (if is_clean e then some r else none)
checked-usable r none = refl
checked-usable r (some message) = elim (Bool-cases (message == "")) [
  | inl e ↦ rw e refl
  | inr e ↦ rw e refl
]

reply-usable :
    (a : Answer LlmResponse)
    → answer_of (elim a [ err t ↦ err t | ok r ↦ api_checked r r.error ]) ≡ usable a
reply-usable (err t) = refl
reply-usable (ok r) = checked-usable r r.error

post_llm-usable :
    (http : Http) (p : LlmProvider) (req : LlmRequest)
    → answer_of (post_llm http p (for_provider p req)) ≡ usable (http p (addressed p req))
unfolding post_llm
post_llm-usable http p req =
    rw (for_provider-addressed p req) (reply-usable (http p (addressed p req)))

-- What the description says of the first provider, by whether its reply is usable.
described-usable :
    (http : Http) (req : LlmRequest) (p : LlmProvider) (ps : List LlmProvider) (r : LlmResponse)
    → usable (http p (addressed p req)) ≡ some r
    → (until_answer http req (p ∷ ps) ≡ p ∷ []) × (first_answer http req (p ∷ ps) ≡ some r)
described-usable http req p ps r h = (rw h refl, rw (h, first_answer) refl)

described-unusable :
    (http : Http) (req : LlmRequest) (p : LlmProvider) (ps : List LlmProvider)
    → usable (http p (addressed p req)) ≡ none
    → (until_answer http req (p ∷ ps) ≡ p ∷ until_answer http req ps)
      × (first_answer http req (p ∷ ps) ≡ first_answer http req ps)
described-unusable http req p ps h = (rw h refl, rw (h, first_answer) refl)

try_providers-first :
    (http : Http) (req : LlmRequest) (last : String) (ps : List LlmProvider)
    → ((try_providers http req last ps).0 ≡ until_answer http req ps)
      × (answer_of (try_providers http req last ps).1 ≡ first_answer http req ps)
unfolding try_providers
try_providers-first http req last [] = (refl, refl)
try_providers-first http req last (p ∷ ps) =
    elim (Answer-cases (post_llm http p (for_provider p req))) [
      | inl (r, e) ↦
          let (asked, answer) =
            described-usable http req p ps r (sym (post_llm-usable http p req) ∙ ap answer_of e) in
          rw e (sym asked, sym answer)
      | inr (t, e) ↦
          let (called, answer) = try_providers-first http req t ps in
          let (asked, answer') =
            described-unusable http req p ps (sym (post_llm-usable http p req) ∙ ap answer_of e) in
          rw e (ap (λ qs. p ∷ qs) called ∙ sym asked, answer ∙ sym answer')
    ]

-- The providers are asked in the order of the configuration, each once and with its own model where
-- the request names none, up to the first whose reply is a response without an error text in it; that
-- response is the result, and there is an error exactly if no reply of theirs is one.
pub post_llm_with_fallback-first :
    (http : Http) (c : LlmConfig) (req : LlmRequest)
    → ((post_llm_with_fallback http c req).0 ≡ until_answer http req c.providers)
      × (answer_of (post_llm_with_fallback http c req).1 ≡ first_answer http req c.providers)
unfolding post_llm_with_fallback
post_llm_with_fallback-first http c req = elim (List-cases c.providers) [
  | inl none_given ↦ rw none_given (refl, refl)
  | inr (p, ps, given) ↦ rw given (try_providers-first http req "" (p ∷ ps))
]
