-- ===== src/Infrastructure/Messaging/Producer.antt =====
-- infrastructure/messaging.py: `KafkaMessage` and the sending of `KafkaProducerManager`. Its start and
-- end are in App/Lifespan; log lines are left out.
use converse_os.Prelude.{
  ℕ, ◌≡◌, String, Option, none, some, List, [], ◌∷◌, ◌++◌, map, Bool, string_eq, Result, ok, raise,
  if◌then◌else◌,
}
use converse_os.Prelude.Dict.{Dict, lookup, insert}
use converse_os.Domain.Value.{Value, str}
use converse_os.Domain.Exceptions.{Exn, runtime_error}

pub record KafkaMessage : Type 0 where
  pub topic : String
  pub key : Option String
  pub value : Dict String Value
  pub headers : Dict String String
  pub partition : Option ℕ

-- `value or {}`, where only `None` is not a dict
abbrev or_empty : {A : Type 0} → Option (Dict String A) → Dict String A
or_empty none = []
or_empty (some d) = d

-- `if k not in self.value: self.value[k] = v`
unfoldable pub set_default : String → Value → Dict String Value → Dict String Value
unfolding lookup insert
set_default k v d = elim (lookup k d) [ none ↦ insert k v d | some _ ↦ d ]

-- `KafkaMessage.__init__`, with the new identifier and the time as printed
unfoldable pub make_message :
    String
    → String
    → String
    → Option String
    → Option (Dict String Value)
    → Option (Dict String String)
    → Option ℕ
    → KafkaMessage
unfolding set_default
make_message message_id now topic key value headers partition = record {
  topic = topic;
  key = key;
  value =
      set_default "timestamp" (str now)
        (set_default "message_id" (str message_id) (or_empty value));
  headers = or_empty headers;
  partition = partition;
}

-- the arguments of `send_and_wait`
pub record Delivery : Type 0 where
  pub message : KafkaMessage
  pub headers : Option (List (String × List ℕ))

-- The client of the broker, the clock, and what prints identifiers and times. `confirmed` are the
-- deliveries that the broker has acknowledged: `send_and_wait` returns after one, or raises.
pub record Broker : Type 1 where
  pub K : Type 0
  pub message_id : K → String
  pub now : K → String
  pub str_uuid : ℕ → String
  pub isoformat : ℕ → String
  pub encode : String → List ℕ
  pub send_and_wait : Delivery → K → Result Exn (Unit {0}) × K
  pub confirmed : K → List Delivery
  pub confirmed-sent :
      (d : Delivery) (k k' : K)
      → send_and_wait d k ≡ (ok tt, k')
      → confirmed k' ≡ confirmed k ++ d ∷ []
  pub confirmed-refused :
      (d : Delivery) (k k' : K) (e : Exn)
      → send_and_wait d k ≡ (raise e, k')
      → confirmed k' ≡ confirmed k

-- `_producer` is set by `initialize`.
pub record KafkaProducerManager : Type 0 where
  pub initialized : Bool

module _ (broker : Broker) where
  open broker use {K, encode}

  unfoldable pub serialize_headers : KafkaMessage → List (String × List ℕ)
  serialize_headers message = map (λ h. (h.0, encode h.1)) message.headers

  abbrev headers_or_none : KafkaMessage → Dict String String → Option (List (String × List ℕ))
  headers_or_none message [] = none
  headers_or_none message (h ∷ hs) = some (serialize_headers message)

  unfoldable pub delivery_of : KafkaMessage → Delivery
  unfolding serialize_headers
  delivery_of message = record {
    message = message;
    headers = headers_or_none message message.headers;
  }

  -- `KafkaProducerManager.send`: an error of the broker is logged and raised again
  unfoldable pub send_message : KafkaProducerManager → KafkaMessage → K → Result Exn (Unit {0}) × K
  unfolding delivery_of
  send_message producer message k =
      if producer.initialized
      then broker.send_and_wait (delivery_of message) k
      else (raise (runtime_error "KafkaProducerManager not initialized."), k)

  -- `send_batch`: up to the first message that is not sent
  unfoldable pub send_batch :
      KafkaProducerManager → List KafkaMessage → K → Result Exn (Unit {0}) × K
  unfolding send_message
  send_batch producer [] k = (ok tt, k)
  send_batch producer (m ∷ ms) k =
      let (r, k') = send_message producer m k in
      let rest = send_batch producer ms k' in elim r [ ok _ ↦ rest | raise e ↦ (raise e, k') ]
