-- ===== src/Http/Address/Scheme.antt =====
-- The address that src/http_server_backend/mongoose.c stores for an accepted setting.
use pg_what_is_happening.Base.{
  ◌≤◌, ◌↔◌, ◌≡◌, refl, ap, arith, true, false, some, [], ◌∷◌, ◌++◌, length, Bytes, codes,
  Bool-cases, inl, inr,
}
use pg_what_is_happening.Http.Address.{
  skip_spaces, read_sign, strtol, first_colon, check_port, check_host_port, check_listen_address,
}
use pg_what_is_happening.Http.Mongoose.{starts_with, listen_address, listen_address_lem}

starts_with-append : (w v : Bytes) → starts_with w v ≡ true → (r : Bytes) × (v ≡ w ++ r)
starts_with-append [] v h = (v, refl)
starts_with-append (a ∷ w) [] h = cc
starts_with-append (a ∷ w) (b ∷ v) h =
    let (r, e) = starts_with-append w v (ground arith) in (r, ground (arith, e))

-- What stands behind the first colon of such an address is no number.
scheme-refused : (r : Bytes) → check_listen_address (some (codes "http://" ++ r)) ≡ false
unfolding check_listen_address check_host_port first_colon check_port strtol read_sign skip_spaces
scheme-refused r = refl

-- An accepted address has no scheme.
pub check-starts_with :
    (v : Bytes) → check_listen_address (some v) ≡ true → starts_with (codes "http://") v ≡ false
check-starts_with v h = elim (Bool-cases (starts_with (codes "http://") v)) [
  | inr e ↦ e
  | inl e ↦
      let (r, s) = starts_with-append (codes "http://") v e in
      cc (h, scheme-refused r, ap (λ u. check_listen_address (some u)) s)
]

-- An address that the setting's check accepts is stored whole, behind "http://", exactly if it has at
-- most 120 bytes.
pub listen_address-check :
    (v : Bytes)
    → check_listen_address (some v) ≡ true
    → (listen_address v ≡ codes "http://" ++ v) ↔ (length v ≤ 120)
listen_address-check v h = listen_address_lem v (check-starts_with v h)
