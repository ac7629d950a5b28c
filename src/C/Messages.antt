-- ===== src/C/Messages.antt =====
-- The tables of messages in a generated C file, from src/c_stuff_sack.py, and the search of
-- `GetSsMsgTypeFromUid`. The enumerators of `SsMsgType` count from 0 in the order of
-- `kMessageUids`, so `kSsMsgTypes[i]` is `i`, and `kSsMsgTypeUnknown` is the number of messages.
use mathlib.Core.Path.{subst}
use stuff_sack.Prelude.{
  ℕ, zero, suc, ◌+◌, ◌≡◌, ◌≢◌, List, [], ◌∷◌, some, arith, ◌==◌, if◌then◌else◌, length, get_elem?,
  All, Option,
}
use stuff_sack.Prelude.Text.{Text}
use stuff_sack.Errors.{ok}
use stuff_sack.Yaml.{Yaml}
use stuff_sack.Types.{SsType, uid, is_message}
use stuff_sack.Spec.Parse.{ClassState, parse_yaml}
use stuff_sack.Spec.Parsed.{UidsDiffer, parse_yaml-IsParsed}

-- `[x for x in all_types if isinstance(x, ss.Message)]`
unfoldable pub messages : List SsType → List SsType
unfolding is_message
messages [] = []
messages (t ∷ ts) = if is_message t then t ∷ messages ts else messages ts

-- The loop of `GetSsMsgTypeFromUid` from index `i` of the tables
unfoldable pub search_uids : ℕ → ℕ → List SsType → ℕ
unfolding uid
search_uids u i [] = i
search_uids u i (m ∷ ms) = if u == uid m then i else search_uids u (suc i) ms

-- `GetSsMsgTypeFromUid`
unfoldable pub get_ss_msg_type_from_uid : List SsType → ℕ → ℕ
unfolding search_uids messages
get_ss_msg_type_from_uid all_types u = search_uids u 0 (messages all_types)

messages-All : (P : SsType → Type 0) (ts : List SsType) → All P ts → All P (messages ts)
unfolding messages
messages-All P [] h = tt
messages-All P (t ∷ ts) (h, hs) = ground (arith, messages-All P ts)

messages-UidsDiffer : (ts : List SsType) → UidsDiffer ts → UidsDiffer (messages ts)
unfolding messages
messages-UidsDiffer [] h = tt
messages-UidsDiffer (t ∷ ts) (h, hs) =
    ground (arith, messages-All (λ u. uid t ≢ uid u) ts h, messages-UidsDiffer ts hs)

All-get_elem? :
    (P : SsType → Type 0) (ts : List SsType) (i : ℕ) (t : SsType)
    → All P ts
    → get_elem? ts i ≡ some t
    → P t
All-get_elem? P [] i t h e = absurd (ground arith)
All-get_elem? P (u ∷ ts) zero t (h, hs) e = let same_t : u ≡ t = cc in subst P same_t h
All-get_elem? P (u ∷ ts) (suc i) t (h, hs) e = All-get_elem? P ts i t hs e

search_uids-finds :
    (k : ℕ) (ms : List SsType) (i : ℕ) (m : SsType)
    → UidsDiffer ms
    → get_elem? ms i ≡ some m
    → search_uids (uid m) k ms ≡ k + i
unfolding search_uids
search_uids-finds k [] i m d e = absurd (ground arith)
search_uids-finds k (u ∷ ms) zero m d e = let same_m : u ≡ m = cc in rw same_m (ground arith)
search_uids-finds k (u ∷ ms) (suc i) m (d, ds) e =
    let differ = All-get_elem? (λ v. uid u ≢ uid v) ms i m d e in
    ground (arith, search_uids-finds (suc k) ms i m ds e)

search_uids-unknown :
    (u k : ℕ) (ms : List SsType) → All (λ m. u ≢ uid m) ms → search_uids u k ms ≡ k + length ms
unfolding search_uids
search_uids-unknown u k [] h = omega arith
search_uids-unknown u k (m ∷ ms) (h, hs) = ground (arith, search_uids-unknown u (suc k) ms hs)

-- Of the types of a parsed specification, the unique id of a message finds that message's place
-- among the messages, and an id that no message has finds the number of messages.
pub get_ss_msg_type_from_uid-finds :
    (yaml : Yaml) (tag : Option Text) (types : List SsType) (state' : ClassState)
    → parse_yaml yaml tag ≡ ok (types, state')
    → ((i : ℕ) (m : SsType)
        → get_elem? (messages types) i ≡ some m
        → get_ss_msg_type_from_uid types (uid m) ≡ i)
      × ((u : ℕ)
          → All (λ m. u ≢ uid m) (messages types)
          → get_ss_msg_type_from_uid types u ≡ length (messages types))
unfolding get_ss_msg_type_from_uid
get_ss_msg_type_from_uid-finds yaml tag types state' h =
    let parsed = parse_yaml-IsParsed yaml tag state' types h in
    let differ = messages-UidsDiffer types parsed.differ in
    (
      λ i m e. omega (arith, search_uids-finds 0 (messages types) i m differ e),
      λ u absent. omega (arith, search_uids-unknown u 0 (messages types) absent),
    )
