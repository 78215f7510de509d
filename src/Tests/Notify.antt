-- ===== src/Tests/Notify.antt =====
-- The notify subsystem at concrete inputs.
use edge_sync.Base.{
  member, ℕ, ◌≡◌, refl, List, [], ◌∷◌, true, Option, some, ltb, if◌then◌else◌, length, keep, All,
  Text, codes, text_eq, ℕ_discrete, arith,
}
use edge_sync.Notify.Dedup.{Subscriber, new_subscriber, enable_dedup, is_duplicate_at, run}
use edge_sync.Notify.Dedup.Window.{IsWindow, enable_dedup-IsWindow, run-IsWindow}
use edge_sync.Notify.Dedup.Recent.{is_duplicate_at_recent}
use edge_sync.Notify.Token.{
  PairInfo, ok, char_at, draw, sample, generate_token, raw_token, hash_token, group_chars,
  format_pair_url, parse_pair_url, cut, split_n, read_segments, parse_behind,
}
use edge_sync.Notify.Token.Sampling.{IsTokenChar, generate_token_form}
use edge_sync.Notify.Token.PairUrl.{NoSlash, parse_pair_url-format_pair_url}
use edge_sync.Notify.JsonFile.{Io, quiet, read_list, commit_list}
use edge_sync.Notify.JsonFile
use edge_sync.Notify.Devices.{Device}
use edge_sync.Notify.Pending.{
  PendingToken, take_hash, consume, validate_hash, validate_token, create_pairing_token,
}
use edge_sync.Notify.Pending.SingleUse.{validate_token_twice, create_pairing_token_lem}
use edge_sync.Tests.Codecs.{
  pending_json, pending_json-ReadsBack, shifted, shifted-IsEscape, file_of, file_of-Holds,
  pending_format, unshift, get_counted, get_all, put_all, get_pending,
}

abbrev ids : List Text
ids = codes "a" ∷ codes "b" ∷ codes "a" ∷ codes "c" ∷ []

abbrev listening : Subscriber
listening = enable_dedup new_subscriber

run-IsWindow_example : IsWindow 2 (run 2 ids listening)
run-IsWindow_example =
    run-IsWindow 2 ids listening (omega arith) (enable_dedup-IsWindow 2 new_subscriber)

is_duplicate_at_recent_example :
    (is_duplicate_at 4
      (codes "z")
      (run 4 (codes "a" ∷ codes "b" ∷ []) (is_duplicate_at 4 (codes "z") listening).1)).0
    ≡ true
unfolding enable_dedup is_duplicate_at member
is_duplicate_at_recent_example =
    is_duplicate_at_recent 4 (codes "z") (codes "a" ∷ codes "b" ∷ []) listening (omega arith)
      (enable_dedup-IsWindow 4 new_subscriber) refl refl (omega arith)

-- Two bytes are rejected, and the rest draw from the start of the alphabet on.
abbrev random : List ℕ
random = 250 ∷ 0 ∷ 1 ∷ 2 ∷ 33 ∷ 4 ∷ 245 ∷ 5 ∷ 6 ∷ 7 ∷ 8 ∷ 9 ∷ 10 ∷ 11 ∷ []

abbrev drawn : Text
drawn = codes "2345-6789-ABCD"

random_token : generate_token random ≡ some drawn
unfolding generate_token sample draw char_at group_chars
random_token = refl

generate_token_form_example :
    (length drawn ≡ 14) × (length (raw_token drawn) ≡ 12) × All IsTokenChar (raw_token drawn)
generate_token_form_example = generate_token_form random drawn random_token

abbrev node : Text
node = codes "node"

abbrev address : Text
address = codes "h/1"

node-NoSlash : NoSlash node
node-NoSlash = (refl, (refl, (refl, (refl, tt))))

parse_pair_url-format_pair_url_example :
    parse_pair_url shifted (format_pair_url shifted node address drawn)
    ≡ ok (record { endpoint_id = node; nats_addr = address; token = raw_token drawn })
parse_pair_url-format_pair_url_example =
    parse_pair_url-format_pair_url shifted node address drawn shifted-IsEscape node-NoSlash

abbrev printed : Text
printed = codes "edgesync-pair://v1/n/a/t/u"

abbrev read : PairInfo
read = record { endpoint_id = codes "n"; nats_addr = codes "`"; token = codes "t/u" }

printed-read : parse_pair_url shifted printed ≡ ok read
unfolding parse_pair_url parse_behind split_n cut read_segments unshift ℕ_discrete
printed-read = refl

abbrev phone : Device
phone = record { name = codes "phone"; endpoint_id = codes "e1"; paired_at = 10 }

abbrev tablet : Device
tablet = record { name = codes "tablet"; endpoint_id = codes "e2"; paired_at = 20 }

abbrev paired : List Device
paired = phone ∷ []

abbrev waiting : PendingToken
waiting = record {
  token_hash = codes "AB";
  created_at = 100;
  expires_at = 700;
  device_name = codes "phone";
}

abbrev emptied : Option Text
emptied = file_of pending_format []

accepted :
    validate_token shifted pending_json quiet 300
      (codes "A-B")
      (file_of pending_format (waiting ∷ []))
    ≡ (JsonFile.ok waiting, emptied)
unfolding validate_token validate_hash take_hash consume hash_token raw_token keep read_list
    commit_list get_counted get_all put_all get_pending text_eq
accepted = refl

validate_token_twice_example :
    validate_token shifted pending_json quiet 301 (codes "A-B") emptied
    ≡ (JsonFile.err JsonFile.token_unknown, emptied)
validate_token_twice_example =
    validate_token_twice shifted pending_json pending_json-ReadsBack 300 301 (codes "A-B")
      (file_of pending_format (waiting ∷ [])) emptied (waiting ∷ []) waiting
      (file_of-Holds pending_format (waiting ∷ [])) (tt, tt) accepted

create_pairing_token_lem_example :
    (pt : PendingToken) × (text : Text) × (create_pairing_token shifted pending_json quiet 100
        random
        (codes "phone")
        emptied
      ≡ some (drawn, JsonFile.ok text))
    × (pt.device_name ≡ codes "phone")
    × ((validate_token shifted pending_json quiet 650 drawn (some text)).0
        ≡ (if ltb 700 650 then JsonFile.err JsonFile.token_expired else JsonFile.ok pt))
    × ((validate_token shifted pending_json quiet 650 (raw_token drawn) (some text)).0
        ≡ (validate_token shifted pending_json quiet 650 drawn (some text)).0)
create_pairing_token_lem_example =
    create_pairing_token_lem shifted pending_json pending_json-ReadsBack 100 650 random
      (codes "phone") drawn emptied [] (file_of-Holds pending_format []) random_token tt
