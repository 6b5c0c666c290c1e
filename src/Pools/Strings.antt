-- ===== src/Pools/Strings.antt =====
-- pkg/pools/string.go: `StringPool`. The address of the argument's copy, which a call stores if the
-- text is new, is the next unused address.
pub mod Identity
use alice_lg.Common.{
  ℕ, suc, ◌+◌, Option, none, some, List, [], ◌∷◌, nat_eq, list_eq, ltb, if◌then◌else◌,
}
use alice_lg.Common.Assoc.{Assoc, get, put, delete}
use alice_lg.Common.Texts.{Text}
use alice_lg.Api.Filters.Value.{Pointer}

-- StringPool
pub record StringPool : Type 0 where
  pub values : Assoc Text Pointer
  pub counter : Assoc Text ℕ
  pub top : ℕ
  pub next_address : ℕ

-- NewStringPool
unfoldable pub new_string_pool : ℕ → StringPool
new_string_pool next = record { values = []; counter = []; top = 0; next_address = next }

abbrev pub fresh : StringPool → Text → Pointer
fresh p s = record { address = p.next_address; target = s }

-- StringPool.Acquire
unfoldable pub acquire : Text → StringPool → StringPool × Pointer
unfolding get put
acquire s p = elim (get s p.values) [
  | some ptr ↦ (record p { counter = put s p.top p.counter }, ptr)
  | none ↦ (
    record p {
      values = put s (fresh p s) p.values;
      counter = put s p.top p.counter;
      next_address = p.next_address + 1;
    },
    fresh p s,
  )
]

-- StringPool.Get
unfoldable pub get_pointer : Text → StringPool → Option Pointer
unfolding get
get_pointer s p = get s p.values

-- The loop of `GarbageCollect` over the entries of the counter: the two maps, and the number of
-- released texts. (Go allows the deletion during the iteration.)
unfoldable pub release_old :
    ℕ → Assoc Text ℕ → Assoc Text Pointer → Assoc Text ℕ → ℕ → Assoc Text Pointer × Assoc Text ℕ × ℕ
unfolding delete
release_old top [] values counter released = (values, counter, released)
release_old top ((k, seen) ∷ m) values counter released =
    let old = ltb seen top in
    release_old top m (if old then delete k values else values)
      (if old then delete k counter else counter) (if old then released + 1 else released)

-- StringPool.GarbageCollect
unfoldable pub garbage_collect : StringPool → StringPool × ℕ
unfolding release_old
garbage_collect p =
    let (values, counter, released) = release_old p.top p.counter p.values p.counter 0 in
    (record p { values = values; counter = counter; top = p.top + 1 }, released)
