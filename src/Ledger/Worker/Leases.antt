-- ===== src/Ledger/Worker/Leases.antt =====
-- A lease keeps other workers away until it expires.
use team_nivaran.Common.{ℕ, ◌+◌, ◌*◌, ◌≤◌, String, ◌≡◌, ◌≢◌, ◌&&◌, List, arith, ◌==◌, eq_iff}
use team_nivaran.Common.Lists.{count, count-update_where_key}
use team_nivaran.Ledger.Model.{ProofRequest, Client, Provider, Settings}
use team_nivaran.Ledger.Requests.{may_lease, lease_row}
use team_nivaran.Ledger.Worker.{acquire}

module _ (prisma : Client) (active : Provider) (settings settings' : Settings) (id : String) where
  -- A worker that has leased a request keeps it until the lease expires: until then no other worker
  -- can lease it. The id is the primary key of the table.
  pub acquire_exclusive :
      (now now' : ℕ) (requests : List ProofRequest)
      → count (λ r. r.id == id) requests ≤ 1
      → (acquire prisma active settings id now requests).0 ≡ 1
      → settings'.owner ≢ settings.owner
      → now' ≤ now + settings.lease_seconds * 1000
      → (acquire prisma active settings' id now'
          (acquire prisma active settings id now requests).1).0
        ≡ 0
  unfolding acquire
  acquire_exclusive now now' requests unique leased other unexpired =
      let mine = λ (r : ProofRequest). r.id == id && may_lease settings.owner now r in
      let theirs = λ (r : ProofRequest). r.id == id && may_lease settings'.owner now' r in
      let first = prisma.request_table.update_many_lem mine (lease_row settings now) requests in
      let none_left =
        count-update_where_key mine theirs (λ r. r.id == id) (lease_row settings now) requests
          (λ r met. ground arith) (λ r met. ground arith)
          (λ r met. ground (arith, eq_iff settings.owner settings'.owner)) unique
          (rw first at leased) in
      rw (first, prisma.request_table.update_many_lem theirs (lease_row settings' now')) none_left
