-- ===== src/Cache/Backend/Memory.antt =====
-- crates/tr-cache/src/backend.rs: `MemBackend`, the backend in memory.
use tr_infer.Prelude.{
  ℕ, ◌≡◌, ◌≢◌, refl, ap, Bool, false, not, Option, none, some, List, length, map, ◌==◌,
  if◌then◌else◌, arith,
}
use tr_infer.Prelude.Assoc.{lookup, remove as erase, lookup-remove_self, lookup-remove_ne}
use tr_infer.Prelude.BTree
use tr_infer.Bytes.{bytes-discrete, bytes_less}
use tr_infer.Cache.Result.{Result, ok, err, put_failed, body_size, no_object}
use tr_infer.Cache.Object.{ObjectMeta, name}
use tr_infer.Cache.Backend.{Backend}

pub record MemBackend : Type 0 where
  pub objects : List (List ℕ × (ObjectMeta × List ℕ))
  pub index : Option (List ℕ)
  pub fail_next_put : Bool

unfoldable pub put : MemBackend → ObjectMeta → List ℕ → MemBackend × Result (Unit {0})
unfolding bytes_less
put b m body =
    if b.fail_next_put
    then (record b { fail_next_put = false }, err put_failed)
    else if not (length body == m.bytes)
    then (b, err body_size)
    else (
      record b { objects = BTree.insert bytes-discrete bytes_less (name m) (m, body) b.objects },
      ok tt,
    )

-- `get` after the lookup; `n` is the length of the buffer that is filled.
abbrev read : ℕ → Option (ObjectMeta × List ℕ) → Result (ObjectMeta × List ℕ)
read n none = err no_object
read n (some (m, body)) = if not (length body == n) then err body_size else ok (m, body)

unfoldable pub get : MemBackend → List ℕ → ℕ → MemBackend × Result (ObjectMeta × List ℕ)
get b object n = (b, read n (lookup bytes-discrete object b.objects))

unfoldable pub delete : MemBackend → List ℕ → MemBackend × Result (Unit {0})
delete b object = (record b { objects = erase bytes-discrete object b.objects }, ok tt)

unfoldable pub list : MemBackend → MemBackend × Result (List ObjectMeta)
list b = (b, ok (map (λ o. o.1.0) b.objects))

unfoldable pub put_index : MemBackend → List ℕ → MemBackend × Result (Unit {0})
put_index b json = (record b { index = some json }, ok tt)

unfoldable pub get_index : MemBackend → MemBackend × Result (Option (List ℕ))
get_index b = (b, ok b.index)

-- The implementation of the trait.
abbrev pub memory : Backend
memory = record {
  State = MemBackend;
  put = put;
  get = get;
  delete = delete;
  list = list;
  put_index = put_index;
  get_index = get_index;
}

-- A put of a body of the announced length succeeds, unless the test hook is set. Afterwards a get
-- of the object's name with a buffer of that length returns the metadata and the body, and a get
-- of any other name is as before.
pub get-put :
    (b : MemBackend) (m : ObjectMeta) (body : List ℕ)
    → b.fail_next_put ≡ false
    → length body ≡ m.bytes
    → ((put b m body).1 ≡ ok tt)
      × ((get (put b m body).0 (name m) m.bytes).1 ≡ ok (m, body))
      × ((other : List ℕ) (n : ℕ)
          → name m ≢ other
          → (get (put b m body).0 other n).1 ≡ (get b other n).1)
unfolding put get
get-put b m body hook size =
    let fits : not (length body == m.bytes) ≡ false = ground arith in
    rw (hook, fits)
      (
        refl,
        rw (BTree.lookup-insert_self bytes-discrete bytes_less (name m) (m, body) b.objects, fits)
            refl,
        λ other n apart. ap (read n) (
            BTree.lookup-insert_ne bytes-discrete bytes_less (name m) other (m, body) b.objects
              apart),
      )

-- A delete succeeds for every name. Afterwards a get of the name finds no object, and a get of
-- any other name is as before.
pub get-delete :
    (b : MemBackend) (object : List ℕ) (n : ℕ)
    → ((delete b object).1 ≡ ok tt)
      × ((get (delete b object).0 object n).1 ≡ err no_object)
      × ((other : List ℕ)
          → object ≢ other
          → (get (delete b object).0 other n).1 ≡ (get b other n).1)
unfolding delete get
get-delete b object n = (
  refl,
  ap (read n) (lookup-remove_self bytes-discrete object b.objects),
  λ other apart. ap (read n) (lookup-remove_ne bytes-discrete object other b.objects apart),
)
