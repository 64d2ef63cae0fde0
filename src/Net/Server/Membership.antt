-- ===== src/Net/Server/Membership.antt =====
-- Who is connected: clients that clock in and out, cells that register and unregister, and agents
-- that start and stop to track a DNA.
use holochain_rust.Prelude.HashMap
use holochain_rust.Prelude.{
  if◌then◌else◌, nat_beq_iff, ◌==◌, ℕ, ◌+◌, ◌^◌, ◌<◌, String, ◌≡◌, ◌&&◌, none, [], arith, eq_iff,
  string_eq, nat_eq,
}
use holochain_rust.Net.Server.State.{done, InMemoryServer, ◌>>◌}
use holochain_rust.Net.Server.Cells.{
  agents_of, register_cell, clock_out, clock_in, unregister_cell, unregister_agent,
}
use holochain_rust.Net.Book.{into_cell_id}

-- After a client came and left, below the largest count: the server is as it was if another client
-- is still there, and else it has no connection left, and is as it was in all else.
pub clock_out-clock_in :
    (s : InMemoryServer)
    → s.client_count + 1 < 2 ^ 64
    → (clock_in >> clock_out) s ≡ (
        if s.client_count == 0
        then (done tt, record s { senders = []; senders_by_dna = [] })
        else (done tt, s))
unfolding clock_in clock_out
clock_out-clock_in s small = ground (arith, nat_beq_iff s.client_count 0)

-- After a cell that was not connected came and left, the server knows the same channel, or none,
-- for each cell identity, and for each DNA and agent the same but for the agent that left.
pub unregister_cell-register_cell :
    (dna agent : String) (channel : ℕ) (s : InMemoryServer)
    → HashMap.get s.senders (into_cell_id dna agent) ≡ none
    → (s' : InMemoryServer) × ((register_cell dna agent channel >> unregister_cell dna agent) s
        ≡ (done tt, s'))
      × ((cell : String) → HashMap.get s'.senders cell ≡ HashMap.get s.senders cell)
      × ((dna' agent' : String)
          → HashMap.get (agents_of s' dna') agent' ≡ (
              if dna == dna' && agent == agent'
              then none
              else HashMap.get (agents_of s dna') agent'))
unfolding register_cell unregister_cell unregister_agent agents_of
unregister_cell-register_cell dna agent channel s absent =
    let cell = into_cell_id dna agent in
    let agents = agents_of s dna in
    let joined = HashMap.insert agents agent channel in
    (
      record s {
        senders = HashMap.remove (HashMap.insert s.senders cell channel) cell;
        senders_by_dna =
            HashMap.insert (HashMap.insert s.senders_by_dna dna joined) dna
              (HashMap.remove joined agent);
      },
      ground (
        arith,
        HashMap.get-insert_self s.senders cell channel,
        HashMap.get-insert_self s.senders_by_dna dna joined,
      ),
      λ c. ground (
        arith,
        absent,
        eq_iff cell c,
        HashMap.get-remove (HashMap.insert s.senders cell channel) cell c,
        HashMap.get-insert s.senders cell c channel,
      ),
      λ dna' agent'. ground (
        arith,
        eq_iff dna dna',
        eq_iff agent agent',
        HashMap.get-insert (HashMap.insert s.senders_by_dna dna joined) dna dna'
            (HashMap.remove joined agent),
        HashMap.get-insert s.senders_by_dna dna dna' joined,
        HashMap.get-remove joined agent agent',
        HashMap.get-insert agents agent agent' channel,
      ),
    )
