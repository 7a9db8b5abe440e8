-- ===== src/Julia/Client.antt =====
-- `send` and `send_data` of `JuliaClient` (julia_client.py): one text goes out, and one comes back. The
-- values of a message, json, the clock and the socket are parameters.
use grip_absorption_pipeline.Base.{
  String, Bool, true, false, Option, none, some, List, [], ◌∷◌, ◌++◌, ◌≡◌, ◌≢◌, refl, ◌∙◌, sym,
  subst, eq_iff, arith, if◌then◌else◌,
}
use grip_absorption_pipeline.Base.Dict.{Dict, get, put, get-put}
use grip_absorption_pipeline.Base.Exec.{
  Exec, raise, gets, or_raise, modify, runtime_error, type_error, ◌>>=◌, ◌>>◌,
}
use grip_absorption_pipeline.Base.Outcomes.{Outcome, Outcome-map}

-- what the libraries answer during a call
pub record Wire (V : Type 0) : Type 0 where
  -- `time.ctime()`, and a text as a value of a message
  pub ctime : String
  pub text_value : String → V
  -- `json_dumps`, with `none` for the TypeError
  pub dumps : Dict V → Option String
  -- whether the socket sends, and what it receives, with `none` for the ZMQError
  pub sends : Bool
  pub received : Option String

pub record Talk (V : Type 0) : Type 0 where
  -- the texts that were sent
  pub sent : List String
  -- the dict of the caller, which `send_data` writes to
  pub given : Dict V

module _ {V : Type 0} where
  unfoldable pub send_string : Wire V → String → Exec (Talk V) (Unit {0})
  send_string wire text =
      if wire.sends
      then modify (λ k. record k { sent = k.sent ++ text ∷ [] })
      else raise runtime_error

  unfoldable pub exchange : Wire V → Dict V → Exec (Talk V) String
  exchange wire message = do
    text ← or_raise (wire.dumps message) type_error
    send_string wire text
    or_raise wire.received runtime_error

  -- `send(message)`
  unfoldable pub send : Wire V → V → Exec (Talk V) String
  send wire message = exchange wire (("message", message) ∷ ("at", wire.text_value wire.ctime) ∷ [])

  -- `dict.update({'message':…, 'at':…})`
  abbrev pub stamped : Wire V → Dict V → Dict V
  stamped wire data_ =
      put "at" (wire.text_value wire.ctime) (put "message" (wire.text_value "data collected") data_)

  -- `send_data(dict)`
  unfoldable pub send_data : Wire V → Exec (Talk V) String
  send_data wire = do
    modify λ k. record k { given = stamped wire k.given }
    message ← gets λ k. k.given
    exchange wire message

  -- The dict has its entries, but for the two that are written.
  pub record IsStamped (wire : Wire V) (before after : Dict V) : Type 0 where
    pub message : get "message" after ≡ some (wire.text_value "data collected")
    pub at : get "at" after ≡ some (wire.text_value wire.ctime)
    pub others : (k : String) → k ≢ "message" → k ≢ "at" → get k after ≡ get k before

  stamped-IsStamped : (wire : Wire V) (d : Dict V) → IsStamped wire d (stamped wire d)
  stamped-IsStamped wire d = record {
    message =
        get-put "at" "message" _ (put "message" (wire.text_value "data collected") d)
        ∙ get-put "message" "message" (wire.text_value "data collected") d;
    at =
        get-put "at" "at" (wire.text_value wire.ctime)
          (put "message" (wire.text_value "data collected") d);
    others = λ k m a. ground (
      arith,
      m,
      a,
      eq_iff "at" k,
      eq_iff "message" k,
      get-put "at" k (wire.text_value wire.ctime)
          (put "message" (wire.text_value "data collected") d),
      get-put "message" k (wire.text_value "data collected") d,
    );
  }

  -- The dict went out as one more text, and the answer is what came back.
  pub record IsAnswered (wire : Wire V) (before : Talk V) (answer : String) (after : Talk V)
      : Type 0 where
    pub text : String
    pub dumped : wire.dumps after.given ≡ some text
    pub sent_eq : after.sent ≡ before.sent ++ text ∷ []
    pub answer_eq : wire.received ≡ some answer

  exchange-Outcome :
      (wire : Wire V) (k : Talk V)
      → Outcome
          (λ answer k'. (k'.given ≡ k.given) × IsAnswered wire k answer k')
          (λ k'. k'.given ≡ k.given)
          (exchange wire k.given k)
  unfolding exchange send_string
  exchange-Outcome wire k = go wire.dumps wire.received wire.sends (wire.dumps k.given) refl
    where
      go :
          (dumps : Dict V → Option String) (received : Option String) (sends : Bool)
          (o : Option String)
          → dumps k.given ≡ o
          → Outcome
              (λ answer k'.
                (k'.given ≡ k.given)
                × IsAnswered
                    (record wire { dumps = dumps; received = received; sends = sends })
                    k
                    answer
                    k')
              (λ k'. k'.given ≡ k.given)
              (exchange
                (record wire { dumps = dumps; received = received; sends = sends })
                k.given
                k)
      go dumps received sends none h = rw h refl
      go dumps received false (some text) h = rw h refl
      go dumps none true (some text) h = rw h refl
      go dumps (some answer) true (some text) h =
          rw h (refl, record { text = text; dumped = h; sent_eq = refl; answer_eq = refl })

-- By any way it ends, `send_data` writes `message` and `at` to the caller's dict and leaves its other
-- entries. If it returns, it has sent one text, that of the dict, and returns what was received.
pub send_data-Outcome :
    {V : Type 0} (wire : Wire V) (k : Talk V)
    → Outcome
        (λ answer k'. IsStamped wire k.given k'.given × IsAnswered wire k answer k')
        (λ k'. IsStamped wire k.given k'.given)
        (send_data wire k)
unfolding send_data
send_data-Outcome wire k =
    Outcome-map (exchange wire (stamped wire k.given) (record k { given = stamped wire k.given }))
      (exchange-Outcome wire (record k { given = stamped wire k.given }))
      (λ answer k' (same, answered). (
        subst (IsStamped wire k.given) (sym same) (stamped-IsStamped wire k.given),
        record {
          text = answered.text;
          dumped = answered.dumped;
          sent_eq = answered.sent_eq;
          answer_eq = answered.answer_eq;
        },
      ))
      (λ k' same. subst (IsStamped wire k.given) (sym same) (stamped-IsStamped wire k.given))
