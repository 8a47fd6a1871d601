-- ===== src/Chaincode/Events.antt =====
-- Events of the chaincode, their store and its range scans (main.go, `Event`, `putEvent`,
-- `queryByPartial`).
use hybrid_quantum_banking_b.Base.{
  ℕ, ◌==◌, leb, String, str_eq, ◌&&◌, ◌||◌, Bool, List, [], ◌∷◌, ◌++◌, Option, none, some,
  if◌then◌else◌, select,
}
use hybrid_quantum_banking_b.Blockchain.Events.{RuleResult}

-- `sha256Hex`, `strconv.FormatUint`, `fmt.Sprintf("%s-%d", …)`, `Time.Format(time.RFC3339Nano)`,
-- `Duration.String` and `time.ParseDuration` on int64 bit patterns, `json.Valid`, and whether
-- `CreateCompositeKey` takes a text as part of a key.
pub record Runtime : Type 0 where
  pub sha256_hex : String → String
  pub format_uint : ℕ → String
  pub event_id : String → ℕ → String
  pub format_time : ℕ → String
  pub duration_text : ℕ → String
  pub parse_duration : String → Option ℕ
  pub valid_json : String → Bool
  pub valid_key : String → Bool

-- `Event`; the timestamp counts nanoseconds.
pub record Event : Type 0 where
  pub id : String
  pub user_id : String
  pub action : String
  pub resource : String
  pub category : String
  pub payload_hash : String
  pub prev_hash : String
  pub hash : String
  pub timestamp : ℕ
  pub seq : ℕ
  pub tx_id : String
  pub payload : String
  pub smart_contract : RuleResult

-- `chainHead`
pub record ChainHead : Type 0 where
  pub seq : ℕ
  pub hash : String

-- `ValidCategories`, in the order of their texts.
abbrev pub valid_categories : List String
valid_categories =
    "audit" ∷ "blockchain_record" ∷ "consent" ∷ "goal" ∷ "kyc" ∷ "payment" ∷ "security"
    ∷ "transaction" ∷ []

-- `ValidCategories[category]`
unfoldable pub is_category : List String → String → Bool
is_category [] category = Bool.false
is_category (c ∷ cs) category = str_eq c category || is_category cs category

-- The event stands under the composite key of the user, the category and the number.
unfoldable pub has_key : String → String → ℕ → Event → Bool
has_key user category n e = str_eq e.user_id user && str_eq e.category category && e.seq == n

-- `putEvent`: the value under an existing key is replaced.
unfoldable pub put_event : Event → List Event → List Event
put_event ev [] = ev ∷ []
put_event ev (e ∷ es) =
    if has_key ev.user_id ev.category ev.seq e then ev ∷ es else e ∷ put_event ev es

-- `GetState` of an event's key.
unfoldable pub find_event : String → String → ℕ → List Event → Option Event
find_event user category n [] = none
find_event user category n (e ∷ es) =
    if has_key user category n e then some e else find_event user category n es

-- `sort.SliceStable` by sequence number.
unfoldable pub insert_by_seq : Event → List Event → List Event
insert_by_seq e [] = e ∷ []
insert_by_seq e (x ∷ xs) =
    let rest = insert_by_seq e xs in if leb e.seq x.seq then e ∷ x ∷ xs else x ∷ rest

unfoldable pub sort_by_seq : List Event → List Event
sort_by_seq [] = []
sort_by_seq (e ∷ es) = insert_by_seq e (sort_by_seq es)

unfoldable pub of_user : String → Event → Bool
of_user user e = str_eq e.user_id user

unfoldable pub in_category : String → Event → Bool
in_category category e = str_eq category e.category

-- The keys of a user in one category: zero-padded numbers are in numeric order.
unfoldable pub scan_category : String → List Event → String → List Event
scan_category user store category =
    sort_by_seq (select (in_category category) (select (of_user user) store))

-- `GetStateByPartialCompositeKey` of a user: category by category.
unfoldable pub scan : String → List Event → List String → List Event
scan user store [] = []
scan user store (c ∷ cs) = scan_category user store c ++ scan user store cs

-- `queryByPartial` with the user alone, and with a category.
unfoldable pub query_user : Runtime → String → List Event → Option (List Event)
query_user rt user store =
    if rt.valid_key user then some (sort_by_seq (scan user store valid_categories)) else none

unfoldable pub query_category : Runtime → String → String → List Event → Option (List Event)
query_category rt user category store =
    if rt.valid_key user && rt.valid_key category
    then some (sort_by_seq (scan_category user store category))
    else none
