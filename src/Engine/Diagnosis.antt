-- ===== src/Engine/Diagnosis.antt =====
-- worker/app/engine/ai_diagnostics.py: the text that explains why a job died. What the two language
-- models answer is a parameter, `none` where the call fails; so are `str.lower` and the environment.
use job_schedular.Prelude.{
  String, Bool, false, ◌||◌, Option, none, some, List, [], ◌∷◌, if◌then◌else◌, any_where, ◌≡◌, refl,
  ap, true≢false, All, Bool-cases, inl, inr,
}
use Prim.Native.String.{◌++◌ as append}
use Prim.Native.String.append as append_laws
use text.Mathlib.Text.{starts_with}
use job_schedular.Model.{Json}
use job_schedular.Services.Slugs.{is_empty}

-- w in text
unfoldable contains : String → String → Bool
contains w String.[] = is_empty w
contains w (String.◌∷◌ c s) = let rest = contains w s in starts_with (String.◌∷◌ c s) w || rest

-- any(w in text for w in words)
abbrev mentions : String → List String → Bool
mentions text words = any_where (λ w. contains w text) words

abbrev memory_words : List String
memory_words = "out of memory" ∷ "oom" ∷ "signal 9" ∷ "sigkill" ∷ "killed" ∷ "memoryerror" ∷ []

abbrev memory_text : String
memory_text = append "🚨 [Root Cause]: Process terminated due to Memory Exhaustion (OOM).\n" (
    append "💡 [Recommendation]: The task required more RAM than allocated. Increase worker " (
      append "container memory limit or batch the dataset into smaller chunked iterations before "
        (append "processing.\n" "🔄 [Replay Safe]: Yes (after allocating additional RAM).")))

abbrev network_words : List String
network_words =
    "timeout" ∷ "timed out" ∷ "connection refused" ∷ "504 gateway" ∷ "502 bad gateway"
    ∷ "connecterror" ∷ []

abbrev network_text : String
network_text = append "🌐 [Root Cause]: Downstream Network / Gateway Timeout.\n" (
    append "💡 [Recommendation]: The external microservice or database gateway did not respond " (
      append "within the SLA threshold. Verify service health or configure exponential backoff "
        (append "with higher max interval.\n" "🔄 [Replay Safe]: Yes (transient network failure).")))

abbrev schema_words : List String
schema_words =
    "keyerror" ∷ "validationerror" ∷ "typeerror" ∷ "valueerror" ∷ "jsondecodeerror"
    ∷ "missing required" ∷ []

abbrev schema_text : String
schema_text = append "📝 [Root Cause]: Data Schema / Serialization Validation Failure.\n" (
    append "💡 [Recommendation]: The task payload contains invalid, null, or unexpected parameter" (
      append " schemas. Update client submission arguments to match the expected schema before "
        (append "redriving.\n" "🔄 [Replay Safe]: No (requires payload schema fix).")))

abbrev credentials_words : List String
credentials_words =
    "unauthorized" ∷ "forbidden" ∷ "401" ∷ "403" ∷ "permission denied" ∷ "invalid token"
    ∷ "access denied" ∷ []

abbrev credentials_text : String
credentials_text = append "🔒 [Root Cause]: Authentication / Credential Authorization Rejection.\n" (
    append "💡 [Recommendation]: The API key or access token expired or lacks sufficient " (
      append "permissions. Refresh authentication secrets in the environment variables.\n"
        "🔄 [Replay Safe]: Yes (after rotating secrets)."))

abbrev contention_words : List String
contention_words = "deadlock" ∷ "lock timeout" ∷ "canceling statement due to statement timeout" ∷ []

abbrev contention_text : String
contention_text = append "🗄\u{fe0f} [Root Cause]: Database Concurrency Contention / Deadlock.\n" (
    append "💡 [Recommendation]: Parallel database transactions conflicted on row locks. Ensure " (
      append "transactions acquire locks in identical sequential order or reduce batch "
        (append "concurrency.\n" "🔄 [Replay Safe]: Yes (safe to replay immediately).")))

abbrev unhandled_text : String → String
unhandled_text task = append "⚠\u{fe0f} [Root Cause]: Unhandled Runtime Exception in Task '" (
    append task (
      append "'.\n💡 [Recommendation]: Inspect the attached stack trace and verify handler logic "
        "in task registry.\n🔄 [Replay Safe]: Check logs before replaying."))

-- The categories in their order: the first that the error mentions gives the text.
abbrev rules : List (List String × String)
rules =
    (memory_words, memory_text)
    ∷ (network_words, network_text)
    ∷ (schema_words, schema_text)
    ∷ (credentials_words, credentials_text)
    ∷ (contention_words, contention_text)
    ∷ []

unfoldable first_rule : String → List (List String × String) → String → String
unfolding contains
first_rule error [] default = default
first_rule error ((words, answer) ∷ more) default =
    let rest = first_rule error more default in if mentions error words then answer else rest

first_rule_not_empty :
    (error : String) (rs : List (List String × String)) (default : String)
    → All (λ r. is_empty r.1 ≡ false) rs
    → is_empty default ≡ false
    → is_empty (first_rule error rs default) ≡ false
unfolding first_rule
first_rule_not_empty error [] default h d = d
first_rule_not_empty error ((words, answer) ∷ more) default h d =
    elim (Bool-cases (mentions error words)) [
      | inl hit ↦ rw hit h.0
      | inr miss ↦ rw miss (first_rule_not_empty error more default h.1 d)
    ]

append_not_empty : (s t : String) → is_empty s ≡ false → is_empty (append s t) ≡ false
append_not_empty String.[] t h = absurd (true≢false h)
append_not_empty (String.◌∷◌ c s) t h = ap is_empty (append_laws.cons c s t)

-- error_message or ''
abbrev or_empty : Option String → String
or_empty none = ""
or_empty (some s) = s

-- `a or b` of a setting and of the environment: a key that is there and is not empty
abbrev filled : String → Option String
filled String.[] = none
filled (String.◌∷◌ c s) = some (String.◌∷◌ c s)

abbrev key_of : String → Option String → Option String
key_of String.[] none = none
key_of String.[] (some variable) = filled variable
key_of (String.◌∷◌ c s) variable = some (String.◌∷◌ c s)

-- an answer that is there and is not empty
abbrev or_next : Option String → String → String
or_next none rest = rest
or_next (some String.[]) rest = rest
or_next (some (String.◌∷◌ c s)) rest = String.◌∷◌ c s

record Failure : Type 0 where
  pub task_name : String
  pub error_message : Option String
  pub stack_trace : Option String
  pub payload : Option Json

-- settings.GEMINI_API_KEY and its variable of the environment, and the same of OPENAI_API_KEY
record Keys : Type 0 where
  pub gemini_setting : String
  pub gemini_variable : Option String
  pub openai_setting : String
  pub openai_variable : Option String

module _ (lower : String → String) where
  unfoldable fallback_rule_engine : Failure → String
  unfolding contains first_rule
  fallback_rule_engine f =
      first_rule (lower (append (or_empty f.error_message) (append "\n" (or_empty f.stack_trace))))
        rules (unhandled_text f.task_name)

  -- ask the model whose key is configured, if there is a key
  abbrev asked : (String → Failure → Option String) → Option String → Failure → Option String
  asked model none f = none
  asked model (some key) f = model key f

  unfoldable analyze_failure :
      (gemini openai : String → Failure → Option String) → Keys → Failure → String
  unfolding fallback_rule_engine
  analyze_failure gemini openai keys f =
      or_next (asked gemini (key_of keys.gemini_setting keys.gemini_variable) f) (
        or_next (asked openai (key_of keys.openai_setting keys.openai_variable) f)
          (fallback_rule_engine f))

  or_next_not_empty :
      (a : Option String) (rest : String)
      → is_empty rest ≡ false
      → is_empty (or_next a rest) ≡ false
  or_next_not_empty none rest h = h
  or_next_not_empty (some String.[]) rest h = h
  or_next_not_empty (some (String.◌∷◌ c s)) rest h = refl

  -- Whatever the language models answer, and without any, a failure has an explanation.
  analyze_failure_not_empty :
      (gemini openai : String → Failure → Option String) (keys : Keys) (f : Failure)
      → is_empty (analyze_failure gemini openai keys f) ≡ false
  unfolding analyze_failure fallback_rule_engine
  analyze_failure_not_empty gemini openai keys f =
      or_next_not_empty (asked gemini (key_of keys.gemini_setting keys.gemini_variable) f) _ (
        or_next_not_empty (asked openai (key_of keys.openai_setting keys.openai_variable) f) _ (
          first_rule_not_empty _ rules _ (refl, (refl, (refl, (refl, (refl, tt)))))
            (append_not_empty _ _ refl)))

-- A gateway's 403 that timed out is taken for a network failure: the categories have an order.
network_before_credentials :
    fallback_rule_engine
      (λ s. s)
      (record {
        task_name = "send";
        error_message = some "403 after timeout";
        stack_trace = none;
        payload = none;
      })
    ≡ network_text
unfolding fallback_rule_engine first_rule contains any_where
network_before_credentials = refl

-- A lock that timed out is taken for a network failure: the word of that category comes first.
network_before_contention :
    fallback_rule_engine
      (λ s. s)
      (record {
        task_name = "send";
        error_message = some "lock timeout";
        stack_trace = none;
        payload = none;
      })
    ≡ network_text
unfolding fallback_rule_engine first_rule contains any_where
network_before_contention = refl
