-- ===== src/PersistentData/Reloading.antt =====
-- server/internal/models/persistentJsonData.go: what is loaded again from the file.
use Prim.Native.String.{String}
use fragua_age.Prelude.{◌≡◌, refl, ◌∙◌, inl, inr, Bool, true, false, some, arith, Option-cases}
use fragua_age.Prelude.Int.{String_discrete}
use fragua_age.GoMap
use fragua_age.GoMap.{GoMap, get-set, get-empty}
use fragua_age.SafeMap
use fragua_age.SafeMap.{SafeMap}
use fragua_age.PersistentData.{
  Versioned, Codec, File, PersistentMap, written, opened, new_persistent_string_map, cache,
  set_current, set_decoded, set, changed, read_write_found, with_read_write, value_at,
}

abbrev put_both : {V : Type 0} → String → V → SafeMap String V → SafeMap String V
put_both key v m = record {
  wo = GoMap.set String_discrete m.wo key v;
  ro = GoMap.set String_discrete m.wo key v;
}

store-always :
    {V : Type 0} (key : String) (v : V) (m : SafeMap String V)
    → (SafeMap.store String_discrete key v (some (λ _. true)) m).1 ≡ put_both key v m
unfolding SafeMap.store SafeMap.update_read_only
store-always key v m = elim (Option-cases (GoMap.get String_discrete m.wo key)) [
  | inl n ↦ ground (arith, n)
  | inr (w, e) ↦ ground (arith, e)
]

get-put :
    {V : Type 0} (key : String) (v : V) (m : GoMap String V)
    → GoMap.get String_discrete (GoMap.set String_discrete m key v) key ≡ some v
get-put key v m = get-set String_discrete m key key v ∙ ground arith

module _ {R V : Type 0} (codec : Codec R V) where
  abbrev kept : String → V → R → PersistentMap R V → PersistentMap R V
  kept key v raw s = record {
    file = record {
      version = 0;
      body =
          GoMap.set String_discrete s.cached_raw_data.wo key (record { version = 0; body = raw });
    };
    cached_raw_data = put_both key (record { version = 0; body = raw }) s.cached_raw_data;
    current_data = put_both key (record { version = 0; body = v }) s.current_data;
  }

  -- A write that succeeds.
  with_read_write_kept :
      (key : String) (fn : V → V × Bool) (s : PersistentMap R V) (v : V) (raw : R)
      → SafeMap.load String_discrete s.current_data key ≡ some (record { version = 0; body = v })
      → (fn v).1 ≡ false
      → codec.encode (fn v).0 ≡ some raw
      → with_read_write codec key fn s ≡ (false, kept key (fn v).0 raw s)
  unfolding with_read_write read_write_found changed cache written SafeMap.marshal_json
  with_read_write_kept key fn s v raw h ok e = ground (
    arith,
    h,
    ok,
    e,
    store-always key (record { version = 0; body = (fn v).0 }) s.current_data,
    store-always key (record { version = 0; body = raw }) s.cached_raw_data,
  )

  value_at-put :
      (key : String) (v : V) (s : PersistentMap R V)
      → value_at codec key (record s {
        current_data = put_both key (record { version = 0; body = v }) s.current_data;
      })
        ≡ some v
  unfolding value_at SafeMap.load
  value_at-put key v s =
      let entry : Versioned V = record { version = 0; body = v } in
      ground (arith, get-put key entry s.current_data.wo)

  -- The file is opened again, and the key is set up from what it holds.
  reloaded : File R → String → V → PersistentMap R V
  unfolding opened
  reloaded f key v = record (opened f) {
    current_data = put_both key (record { version = 0; body = v }) (opened f).current_data;
  }

  set-reloaded :
      (f : File R) (key : String) (default v : V) (raw : R)
      → GoMap.get String_discrete f.body key ≡ some (record { version = 0; body = raw })
      → codec.decode raw ≡ some v
      → set codec key default (opened f) ≡ (false, reloaded f key v)
  unfolding set set_decoded set_current opened reloaded SafeMap.load SafeMap.store
      SafeMap.update_read_only SafeMap.new_safe_map
  set-reloaded f key default v raw h d =
      ground (arith, h, d, get-empty {V = Versioned V} String_discrete key)

-- With an encoding that loses nothing, of data that is there in version 0 and that the function changes without an
-- error: psmjWithReadWrite succeeds, the file that it writes can be opened again, and then psmjSet of the
-- key succeeds, whatever its default, and yields the changed data, as the map does that wrote it.
pub with_read_write-reloaded :
    {R V : Type 0} (codec : Codec R V) (key : String) (fn : V → V × Bool) (default : V)
    (s : PersistentMap R V) (v : V) (raw : R)
    → ((x : V) (r : R) → codec.encode x ≡ some r → codec.decode r ≡ some x)
    → SafeMap.load String_discrete s.current_data key ≡ some (record { version = 0; body = v })
    → (fn v).1 ≡ false
    → codec.encode (fn v).0 ≡ some raw
    → (t u w : PersistentMap R V) × (with_read_write codec key fn s ≡ (false, t))
      × (value_at codec key t ≡ some (fn v).0)
      × (new_persistent_string_map (some t.file) ≡ some u)
      × (set codec key default u ≡ (false, w))
      × (value_at codec key w ≡ some (fn v).0)
unfolding new_persistent_string_map reloaded opened value_at
with_read_write-reloaded codec key fn default s v raw lossless h ok e =
    let x = (fn v).0 in
    let t = kept codec key x raw s in
    (
      t,
      opened t.file,
      reloaded codec t.file key x,
      with_read_write_kept codec key fn s v raw h ok e,
      value_at-put codec key x s,
      refl,
      set-reloaded codec t.file key default x raw
          (get-put key (record { version = 0; body = raw }) s.cached_raw_data.wo)
          (lossless x raw e),
      value_at-put codec key x (opened t.file),
    )
