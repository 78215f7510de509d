-- ===== src/Tests/Codecs.antt =====
-- Concrete stand-ins for encoding/json and the URL escapes, with the laws that the theorems ask
-- for. A text is written behind its length, and a list behind its number of elements.
use edge_sync.Base.{
  ℕ, zero, suc, ◌+◌, ◌-◌, ◌≡◌, refl, ap, List, [], ◌∷◌, ◌++◌, ltb, Option, none, some,
  if◌then◌else◌, length, take, drop, drop-length-append, Text, arith,
}
use edge_sync.Notify.JsonFile.{Json, ReadsBack, Holds, ok, read_list}
use edge_sync.Notify.Devices.{Device}
use edge_sync.Notify.Pending.{PendingToken}
use edge_sync.Notify.Token.{Codec}
use edge_sync.Notify.Token.PairUrl.{IsEscape, NoSlash}

-- How one element is written in front of a text, and read off it.
pub record Format (A : Type 0) : Type 0 where
  pub put : A → Text → Text
  pub get : Text → A × Text
  pub reads_back : (a : A) (r : Text) → get (put a r) ≡ (a, r)

module _ {A : Type 0} (f : Format A) where
  unfoldable pub put_all : List A → Text
  put_all [] = []
  put_all (x ∷ xs) = f.put x (put_all xs)

  unfoldable pub get_all : ℕ → Text → List A
  get_all zero r = []
  get_all (suc n) r = let (x, rest) = f.get r in x ∷ get_all n rest

  get_all-put_all : (xs : List A) → get_all (length xs) (put_all xs) ≡ xs
  unfolding put_all get_all
  get_all-put_all [] = refl
  get_all-put_all (x ∷ xs) = rw (f.reads_back x (put_all xs)) (ap (◌∷◌ x) (get_all-put_all xs))

  unfoldable pub get_counted : Text → Option (List A)
  get_counted [] = none
  get_counted (n ∷ r) = some (get_all n r)

  abbrev pub list_json : Json A
  list_json = record { encode = λ xs. some (length xs ∷ put_all xs); decode = get_counted }

  pub list_json-ReadsBack : ReadsBack list_json
  unfolding get_counted
  list_json-ReadsBack xs = (_, refl, ap some (get_all-put_all xs))

  -- The file that was written from the list.
  abbrev pub file_of : List A → Option Text
  file_of xs = some (length xs ∷ put_all xs)

  pub file_of-Holds : (xs : List A) → Holds list_json (file_of xs) xs
  unfolding read_list get_counted
  file_of-Holds xs = ap ok (get_all-put_all xs)

take-length-append : (xs ys : Text) → take (length xs) (xs ++ ys) ≡ xs
take-length-append [] ys = refl
take-length-append (x ∷ xs) ys = ap (◌∷◌ x) (take-length-append xs ys)

abbrev pub put_text : Text → Text → Text
put_text t r = length t ∷ (t ++ r)

abbrev pub get_text : Text → Text × Text
get_text [] = ([], [])
get_text (n ∷ r) = (take n r, drop n r)

abbrev pub get_number : Text → ℕ × Text
get_number [] = (0, [])
get_number (n ∷ r) = (n, r)

pub get_device : Text → Device × Text
get_device r =
    let (name, r₁) = get_text r in
    let (id, r₂) = get_text r₁ in
    let (at, r₃) = get_number r₂ in (record { name = name; endpoint_id = id; paired_at = at }, r₃)

abbrev pub put_device : Device → Text → Text
put_device d r = put_text d.name (put_text d.endpoint_id (d.paired_at ∷ r))

pub device_reads_back : (d : Device) (r : Text) → get_device (put_device d r) ≡ (d, r)
unfolding get_device
device_reads_back d r = rw (
  take-length-append d.name (put_text d.endpoint_id (d.paired_at ∷ r)),
  drop-length-append d.name (put_text d.endpoint_id (d.paired_at ∷ r)),
  take-length-append d.endpoint_id (d.paired_at ∷ r),
  drop-length-append d.endpoint_id (d.paired_at ∷ r),
)

abbrev pub device_format : Format Device
device_format = record { put = put_device; get = get_device; reads_back = device_reads_back }

unfoldable pub get_pending : Text → PendingToken × Text
get_pending r =
    let (hash, r₁) = get_text r in
    let (created, r₂) = get_number r₁ in
    let (expires, r₃) = get_number r₂ in
    let (name, r₄) = get_text r₃ in
    (
      record { token_hash = hash; created_at = created; expires_at = expires; device_name = name },
      r₄,
    )

abbrev pub put_pending : PendingToken → Text → Text
put_pending p r = put_text p.token_hash (p.created_at ∷ p.expires_at ∷ put_text p.device_name r)

pub pending_reads_back : (p : PendingToken) (r : Text) → get_pending (put_pending p r) ≡ (p, r)
unfolding get_pending
pending_reads_back p r = rw (
  take-length-append p.token_hash (p.created_at ∷ p.expires_at ∷ put_text p.device_name r),
  drop-length-append p.token_hash (p.created_at ∷ p.expires_at ∷ put_text p.device_name r),
  take-length-append p.device_name r,
  drop-length-append p.device_name r,
)

abbrev pub pending_format : Format PendingToken
pending_format = record { put = put_pending; get = get_pending; reads_back = pending_reads_back }

abbrev pub devices_json : Json Device
devices_json = list_json device_format

pub devices_json-ReadsBack : ReadsBack devices_json
devices_json-ReadsBack = list_json-ReadsBack device_format

abbrev pub pending_json : Json PendingToken
pending_json = list_json pending_format

pub pending_json-ReadsBack : ReadsBack pending_json
pending_json-ReadsBack = list_json-ReadsBack pending_format

-- An escape that makes room at the code of the slash.
pub shift : Text → Text
shift [] = []
shift (c ∷ t) = (if ltb c b'/' then c else c + 1) ∷ shift t

unfoldable pub unshift : Text → Text
unshift [] = []
unshift (c ∷ t) = (if ltb c b'/' then c else c - 1) ∷ unshift t

unshift-shift : (t : Text) → unshift (shift t) ≡ t
unfolding shift unshift
unshift-shift [] = refl
unshift-shift (c ∷ t) = ground (arith, unshift-shift t)

shift-NoSlash : (t : Text) → NoSlash (shift t)
unfolding shift
shift-NoSlash [] = tt
shift-NoSlash (c ∷ t) = (ground arith, shift-NoSlash t)

abbrev pub shifted : Codec
shifted = record { sha256_hex = λ t. t; path_escape = shift; path_unescape = λ t. some (unshift t) }

pub shifted-IsEscape : IsEscape shifted
shifted-IsEscape = record {
  unescapes = λ t. ap some (unshift-shift t);
  escapes_slash = shift-NoSlash;
}
