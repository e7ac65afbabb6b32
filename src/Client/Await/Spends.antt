-- ===== src/Client/Await/Spends.antt =====
-- app/src/boosteroid_client.cpp: how often `StartStreamingSession` is called, part by part of a
-- computation.
use booster_nx.Common.{
  ℕ, suc, ◌+◌, ◌≤◌, ◌≡◌, refl, ap, ◌∙◌, Bool, true, false, Option, none, some, List, [], ◌∷◌, ◌++◌,
  String, arith, if◌then◌else◌,
}
use booster_nx.Common.Int.{ℤ}
use booster_nx.Client.World.{
  HttpResponse, HttpRequest, get_last_session, post_dequeue, post_details, post_hangup,
  post_enqueue, post_start, Error, cancelled, Result, ok, throws, World, M, pure, fail, bind_result,
  ◌>>=◌, caught, catch, next_response, send, next_messages, poll_messages, next_answer, next_time,
  now, ask_caller, report,
}

-- The requests for a start among those that were sent.
abbrev pub starts : List HttpRequest → ℕ
starts [] = 0
starts (post_start app token ∷ qs) = suc (starts qs)
starts (get_last_session ∷ qs) = starts qs
starts (post_dequeue ∷ qs) = starts qs
starts (post_details id ∷ qs) = starts qs
starts (post_hangup id ∷ qs) = starts qs
starts (post_enqueue app ∷ qs) = starts qs

abbrev pub IsStart : HttpRequest → Type 0
IsStart (post_start app token) = Unit {0}
IsStart q = ⊥

-- What a result leaves to be spent.
abbrev pub left : {A : Type 0} → (A → ℕ) → Result A → ℕ
left b (ok a) = b a
left b (throws e) = 0

module _ {A : Type 0} where
  -- A computation that has `n` starts to spend, and leaves what `b` says of its result.
  pub record Spends (b : A → ℕ) (n : ℕ) (m : M A) : Type 0 where
    pub spent : (w : World) → starts (m w).1.sent + left b (m w).0 ≤ starts w.sent + n

  -- A computation without a start, whatever it comes to.
  pub record NoStart (m : M A) : Type 0 where
    pub unspent : (w : World) → starts (m w).1.sent ≡ starts w.sent

starts-append : (xs ys : List HttpRequest) → starts (xs ++ ys) ≡ starts xs + starts ys
starts-append [] ys = omega arith
starts-append (post_start app token ∷ qs) ys = omega (arith, starts-append qs ys)
starts-append (get_last_session ∷ qs) ys = starts-append qs ys
starts-append (post_dequeue ∷ qs) ys = starts-append qs ys
starts-append (post_details id ∷ qs) ys = starts-append qs ys
starts-append (post_hangup id ∷ qs) ys = starts-append qs ys
starts-append (post_enqueue app ∷ qs) ys = starts-append qs ys

next_response-sent :
    (rs : List (Option HttpResponse)) (w : World) → (next_response rs w).1.sent ≡ w.sent
next_response-sent [] w = refl
next_response-sent (none ∷ rs) w = refl
next_response-sent (some r ∷ rs) w = refl

send-sent : (q : HttpRequest) (w : World) → (send q w).1.sent ≡ w.sent ++ (q ∷ [])
unfolding send
send-sent q w = next_response-sent w.responses (record w { sent = w.sent ++ (q ∷ []) })

starts-send :
    (q : HttpRequest) (w : World) → starts (send q w).1.sent ≡ starts w.sent + starts (q ∷ [])
starts-send q w = ap starts (send-sent q w) ∙ starts-append w.sent (q ∷ [])

pub send-NoStart : (q : HttpRequest) → starts (q ∷ []) ≡ 0 → NoStart (send q)
send-NoStart q other = record { unspent = λ w. omega (arith, starts-send q w, other) }

next_messages-sent : (ms : List (List String)) (w : World) → (next_messages ms w).1.sent ≡ w.sent
next_messages-sent [] w = refl
next_messages-sent (m ∷ ms) w = refl

pub poll_messages-NoStart : NoStart poll_messages
unfolding poll_messages
poll_messages-NoStart = record { unspent = λ w. ap starts (next_messages-sent w.messages w) }

next_answer-sent : (bs : List Bool) (w : World) → (next_answer bs w).1.sent ≡ w.sent
next_answer-sent [] w = refl
next_answer-sent (b ∷ bs) w = refl

next_time-sent : (ts : List ℕ) (w : World) → (next_time ts w).1.sent ≡ w.sent
next_time-sent [] w = refl
next_time-sent (t ∷ ts) w = refl

pub now-NoStart : NoStart now
unfolding now
now-NoStart = record { unspent = λ w. ap starts (next_time-sent w.times w) }

module _ {A B : Type 0} where
  bind_result-NoStart :
      (n : ℕ) (f : A → M B) (p : Result A × World)
      → starts p.1.sent ≡ n
      → ((a : A) → NoStart (f a))
      → starts (bind_result f p).1.sent ≡ n
  bind_result-NoStart n f (ok a, w) e h = (h a).unspent w ∙ e
  bind_result-NoStart n f (throws x, w) e h = e

  pub bind-NoStart :
      (m : M A) (f : A → M B) → NoStart m → ((a : A) → NoStart (f a)) → NoStart (m >>= f)
  bind-NoStart m f h k = record {
    unspent = λ w. bind_result-NoStart (starts w.sent) f (m w) (h.unspent w) k;
  }

  bind_result-Spends :
      (b : A → ℕ) (c : B → ℕ) (n : ℕ) (f : A → M B) (p : Result A × World)
      → starts p.1.sent + left b p.0 ≤ n
      → ((a : A) → Spends c (b a) (f a))
      → starts (bind_result f p).1.sent + left c (bind_result f p).0 ≤ n
  bind_result-Spends b c n f (ok a, w) e h = omega (arith, (h a).spent w, e)
  bind_result-Spends b c n f (throws x, w) e h = e

  pub bind-Spends :
      (b : A → ℕ) (c : B → ℕ) (n : ℕ) (m : M A) (f : A → M B)
      → Spends b n m
      → ((a : A) → Spends c (b a) (f a))
      → Spends c n (m >>= f)
  bind-Spends b c n m f h k = record {
    spent = λ w. bind_result-Spends b c (starts w.sent + n) f (m w) (h.spent w) k;
  }

module _ {A : Type 0} where
  caught-NoStart :
      (n : ℕ) (h : M A) (p : Result A × World)
      → starts p.1.sent ≡ n
      → NoStart h
      → starts (caught h p).1.sent ≡ n
  caught-NoStart n h (ok a, w) e k = e
  caught-NoStart n h (throws x, w) e k = k.unspent w ∙ e

  pub catch-NoStart : (m h : M A) → NoStart m → NoStart h → NoStart (catch m h)
  catch-NoStart m h k l = record {
    unspent = λ w. caught-NoStart (starts w.sent) h (m w) (k.unspent w) l;
  }

  left-le : (n : ℕ) (r : Result A) → left (λ a. n) r ≤ n
  left-le n (ok a) = omega arith
  left-le n (throws e) = omega arith

  -- What sends no start keeps all that it has.
  pub NoStart-Spends : (n : ℕ) (m : M A) → NoStart m → Spends (λ a. n) n m
  NoStart-Spends n m h = record { spent = λ w. omega (arith, h.unspent w, left-le n (m w).0) }

  pub pure-NoStart : (a : A) → NoStart (pure a)
  pure-NoStart a = record { unspent = λ w. refl }

  pub pure-Spends : (b : A → ℕ) (n : ℕ) (a : A) → b a ≤ n → Spends b n (pure a)
  pure-Spends b n a h = record { spent = λ w. omega (arith, h) }

  caught-Spends :
      (b : A → ℕ) (n : ℕ) (h : M A) (p : Result A × World)
      → starts p.1.sent + left b p.0 ≤ n
      → Spends b 0 h
      → starts (caught h p).1.sent + left b (caught h p).0 ≤ n
  caught-Spends b n h (ok a, w) e k = e
  caught-Spends b n h (throws x, w) e k = omega (arith, k.spent w, e)

  -- A handler has nothing left to spend.
  pub catch-Spends :
      (b : A → ℕ) (n : ℕ) (m h : M A) → Spends b n m → Spends b 0 h → Spends b n (catch m h)
  catch-Spends b n m h k l = record {
    spent = λ w. caught-Spends b (starts w.sent + n) h (m w) (k.spent w) l;
  }

  -- One start that is sent, or nothing.
  pub weaken-Spends : (b : A → ℕ) (n k : ℕ) (m : M A) → n ≤ k → Spends b n m → Spends b k m
  weaken-Spends b n k m h l = record { spent = λ w. omega (arith, h, l.spent w) }

  pub if-NoStart : (b : Bool) (m k : M A) → NoStart m → NoStart k → NoStart (if b then m else k)
  if-NoStart true m k h l = h
  if-NoStart false m k h l = l

  pub if-Spends :
      (b : A → ℕ) (n : ℕ) (t : Bool) (m k : M A)
      → Spends b n m
      → Spends b n k
      → Spends b n (if t then m else k)
  if-Spends b n true m k h l = h
  if-Spends b n false m k h l = l

pub fail-Spends : (A : Type 0) (b : A → ℕ) (n : ℕ) (e : Error) → Spends b n (fail {A = A} e)
fail-Spends A b n e = record { spent = λ w. omega arith }

pub fail-NoStart : (A : Type 0) (e : Error) → NoStart (fail {A = A} e)
fail-NoStart A e = record { unspent = λ w. refl }

ask_caller-NoStart : NoStart ask_caller
unfolding ask_caller
ask_caller-NoStart = record { unspent = λ w. ap starts (next_answer-sent w.answers w) }

pub report-NoStart : NoStart report
unfolding report
report-NoStart =
    bind-NoStart ask_caller (λ keep. if keep then pure tt else fail cancelled) ask_caller-NoStart
      (λ keep.
        if-NoStart keep (pure tt) (fail cancelled) (pure-NoStart tt)
          (fail-NoStart (Unit {0}) cancelled))

left_zero : {A : Type 0} (r : Result A) → left (λ a. 0) r ≡ 0
left_zero (ok a) = refl
left_zero (throws e) = refl

-- A start that is sent is spent.
pub send-Spends : (app : ℤ) (token : String) → Spends (λ r. 0) 1 (send (post_start app token))
send-Spends app token = record {
  spent = λ w.
      omega
        (arith, starts-send (post_start app token) w, left_zero (send (post_start app token) w).0);
}
