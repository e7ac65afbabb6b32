-- ===== src/Client/World.antt =====
-- What the session client meets: the answers of the HTTP client, the messages that each poll of the
-- realtime socket delivers, what the caller's `on_poll` answers, and the clock, each as a list of
-- what comes next; and the requests that it has sent. A list that has run out stands for a request
-- that throws, no message, an `on_poll` that goes on, and a clock at its start.
use booster_nx.Common.{
  ℕ, Bool, true, Option, none, some, List, [], ◌∷◌, ◌++◌, String, if◌then◌else◌,
}
use booster_nx.Common.Int.{ℤ}

-- A status code and a body.
pub record HttpResponse : Type 0 where
  pub status_code : ℕ
  pub body : String

-- What is asked of the server, with the session or the game.
pub data HttpRequest : Type 0 where
  get_last_session post_dequeue : HttpRequest
  post_details post_hangup : String → HttpRequest
  post_enqueue : ℤ → HttpRequest
  post_start : ℤ → String → HttpRequest

-- `std::runtime_error` of the HTTP client and of the JSON parser, `BoosteroidClientError` and
-- `SessionTimedOutError`; the cancellation by the caller is one of the former.
pub data Error : Type 0 where
  http_error json_error client_error cancelled session_timed_out : Error

pub data Result (A : Type 0) : Type 0 where
  ok : A → Result A
  throws : Error → Result A

pub record World : Type 0 where
  pub responses : List (Option HttpResponse)
  pub messages : List (List String)
  pub answers : List Bool
  pub times : List ℕ
  pub sent : List HttpRequest

abbrev pub M : Type 0 → Type 0
M A = World → Result A × World

abbrev pub pure : {A : Type 0} → A → M A
pure a w = (ok a, w)

abbrev pub fail : {A : Type 0} → Error → M A
fail e w = (throws e, w)

abbrev pub bind_result : {A B : Type 0} → (A → M B) → Result A × World → Result B × World
bind_result f (ok a, w) = f a w
bind_result f (throws e, w) = (throws e, w)

infixl 5 ◌>>=◌ ◌>>◌
abbrev pub ◌>>=◌ : {A B : Type 0} → M A → (A → M B) → M B
◌>>=◌ m f w = bind_result f (m w)

abbrev pub ◌>>◌ : {A B : Type 0} → M A → M B → M B
◌>>◌ m k w = bind_result (λ a. k) (m w)

abbrev pub caught : {A : Type 0} → M A → Result A × World → Result A × World
caught h (ok a, w) = (ok a, w)
caught h (throws e, w) = h w

-- `try m catch (...) { h }`.
abbrev pub catch : {A : Type 0} → M A → M A → M A
catch m h w = caught h (m w)

abbrev pub next_response : List (Option HttpResponse) → World → Result HttpResponse × World
next_response [] w = (throws http_error, w)
next_response (none ∷ rs) w = (throws http_error, record w { responses = rs })
next_response (some r ∷ rs) w = (ok r, record w { responses = rs })

-- `http_client_.Get` and `Post`.
unfoldable pub send : HttpRequest → M HttpResponse
send q w = next_response w.responses (record w { sent = w.sent ++ (q ∷ []) })

abbrev pub next_messages : List (List String) → World → Result (List String) × World
next_messages [] w = (ok [], w)
next_messages (ms ∷ rest) w = (ok ms, record w { messages = rest })

-- `realtime_ws->poll()`.
unfoldable pub poll_messages : M (List String)
poll_messages w = next_messages w.messages w

abbrev pub next_answer : List Bool → World → Result Bool × World
next_answer [] w = (ok true, w)
next_answer (b ∷ bs) w = (ok b, record w { answers = bs })

abbrev pub next_time : List ℕ → World → Result ℕ × World
next_time [] w = (ok 0, w)
next_time (t ∷ ts) w = (ok t, record w { times = ts })

-- `std::chrono::steady_clock::now()`, in nanoseconds.
unfoldable pub now : M ℕ
now w = next_time w.times w

unfoldable pub ask_caller : M Bool
ask_caller w = next_answer w.answers w

-- `if (!on_poll(...)) throw`.
unfoldable pub report : M (Unit {0})
unfolding ask_caller
report = do keep ← ask_caller; if keep then pure tt else fail cancelled
