-- ===== src/Replication/Resync.antt =====
-- A full resync: what the master sends when a client asks for one, read by the replica's thread.
use redis_plus.Prelude.{
  ℕ, ◌≤◌, ◌≡◌, ◌≢◌, refl, ◌∙◌, Bool, true, none, some, List, [], ◌∷◌, ◌++◌, Bytes, codes, length,
  All, arith,
}
use redis_plus.Prelude.Int.{ℤ, max_i64, InRange}
use redis_plus.Decimal.{to_string, int_to_string}
use redis_plus.Resp.Find.{cr}
use redis_plus.Store.{Store, snapshot}
use redis_plus.Rdb.Write.{rdb_serialize}
use redis_plus.Rdb.RoundTrip.{rdb_parse-rdb_serialize}
use redis_plus.Commands.Propagate.Set.{IsPrintable}
use redis_plus.Replication.{Replication}
use redis_plus.Replication.Reader.{
  SyncReader, read_line, read_exact, ahead, read_line_lem, read_exact_lem,
}
use redis_plus.Replication.Master.{full_resync_line, rdb_header}
use redis_plus.Replication.Stream.{Writer}
use redis_plus.Replication.Handshake.{
  synced, expect_prefix, ask, load_payload, read_header, after_psync, after_handshake, attempt,
}
use redis_plus.Replication.Lines.{
  ask_lem, greetings, handshake_lem, full_line, full_line-split, full_line-clean, offset_found,
  header_line, header_line-split, header_line-clean,
}

-- Both limits of the format on what a master sends.
pub record IsSendableTo (r : Replication) (store : Store) : Type 0 where
  pub one_line : All (λ c. c ≢ cr) r.replid
  pub offset_fits : IsPrintable r.master_offset
  pub deadlines_fit : All (λ k. InRange k.expire_at) (snapshot store)
  pub payload_fits : length (rdb_serialize (snapshot store)) ≤ max_i64

module _ (strtoll : Bytes → ℤ) (strtoull : Bytes → ℕ)
    (signed : (a : ℤ) → IsPrintable a → strtoll (int_to_string a) ≡ a)
    (unsigned : (n : ℕ) → n ≤ max_i64 → strtoull (to_string n) ≡ n) where
  payload_lem :
      (r : Replication) (store : Store) (reader : SyncReader) (w : Writer) (t : Bytes)
      → IsSendableTo r store
      → ahead reader ≡ rdb_serialize (snapshot store) ++ t
      → (q : SyncReader) × (load_payload strtoll strtoull r.master_offset w
            (read_exact (length (rdb_serialize (snapshot store))) reader)
          ≡ some (synced r.master_offset (snapshot store) q w))
        × (ahead q ≡ t)
  unfolding load_payload
  payload_lem r store reader w t fits e =
      let payload = rdb_serialize (snapshot store) in
      let (q, read, left) = read_exact_lem (length payload) reader payload t refl e in
      (
        q,
        rw
            (
              read,
              load_payload,
              rdb_parse-rdb_serialize (snapshot store) fits.deadlines_fit
                  (omega (arith, fits.payload_fits)),
            )
            refl,
        left,
      )

  header_lem :
      (r : Replication) (store : Store) (reader : SyncReader) (w : Writer) (t : Bytes)
      → IsSendableTo r store
      → let payload = rdb_serialize (snapshot store) in
        ahead reader ≡ rdb_header payload ++ (payload ++ t)
        → (q : SyncReader) × (read_header strtoll strtoull r.master_offset w (read_line reader)
            ≡ some (synced r.master_offset (snapshot store) q w))
          × (ahead q ≡ t)
  unfolding read_header header_line
  header_lem r store reader w t fits e =
      let payload = rdb_serialize (snapshot store) in
      let (p, read, behind) =
        read_line_lem reader (header_line payload) (payload ++ t) (header_line-clean payload)
          (e ∙ header_line-split payload (payload ++ t)) in
      let (q, loaded, left) = payload_lem r store p w t fits behind in
      (q, rw (read, unsigned (length payload) fits.payload_fits) loaded, left)

  psync_lem :
      (r : Replication) (store : Store) (reader : SyncReader) (w : Writer) (more : List Bool)
      (t : Bytes)
      → IsSendableTo r store
      → w.outcomes ≡ true ∷ more
      → let payload = rdb_serialize (snapshot store) in
        ahead reader ≡ full_resync_line r ++ (rdb_header payload ++ (payload ++ t))
        → (q : SyncReader) × (v : Writer) × (after_psync strtoll strtoull
              (ask (codes "PSYNC" ∷ codes "?" ∷ codes "-1" ∷ []) reader w)
            ≡ some (synced r.master_offset (snapshot store) q v))
          × (ahead q ≡ t)
  unfolding after_psync expect_prefix
  psync_lem r store reader w more t fits up e =
      let payload = rdb_serialize (snapshot store) in
      let behind = rdb_header payload ++ (payload ++ t) in
      let (p, v, asked, rest, outcomes) =
        ask_lem (codes "PSYNC" ∷ codes "?" ∷ codes "-1" ∷ []) reader w more (full_line r) behind up
          (full_line-clean r fits.one_line) (e ∙ full_line-split r behind) in
      let (q, loaded, left) = header_lem r store p v t fits rest in
      let begins : expect_prefix (full_line r) (codes "+FULLRESYNC") ≡ true =
        unfold full_line in refl in
      (
        q,
        v,
        rw (asked, begins, offset_found r, signed r.master_offset fits.offset_fits) loaded,
        left,
      )

  -- The replica loads the master's snapshot and offset, and keeps what stands behind them.
  pub attempt_lem :
      (port : ℕ) (r : Replication) (store : Store) (reader : SyncReader) (w : Writer)
      (more : List Bool) (t : Bytes)
      → IsSendableTo r store
      → w.outcomes ≡ true ∷ true ∷ true ∷ true ∷ more
      → let payload = rdb_serialize (snapshot store) in
        ahead reader ≡ greetings ++ (full_resync_line r ++ (rdb_header payload ++ (payload ++ t)))
        → (q : SyncReader) × (v : Writer) × (attempt strtoll strtoull port none reader w
            ≡ some (synced r.master_offset (snapshot store) q v))
          × (ahead q ≡ t)
  unfolding attempt after_handshake
  attempt_lem port r store reader w more t fits up e =
      let payload = rdb_serialize (snapshot store) in
      let (p, v, greeted, rest, up1) =
        handshake_lem port reader w (true ∷ more)
          (full_resync_line r ++ (rdb_header payload ++ (payload ++ t))) up e in
      let (q, u, loaded, left) = psync_lem r store p v more t fits up1 rest in
      (q, u, rw greeted loaded, left)
