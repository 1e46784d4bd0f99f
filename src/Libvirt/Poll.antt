-- ===== src/Libvirt/Poll.antt =====
-- The two polling loops of cross-node-rental/src/workspace/libvirt_provider.rs: the wait for a DHCP
-- lease and the confirmation of a domain's state. The clock counts milliseconds. Each loop runs on
-- fuel, one unit for each round; where the fuel ends, it returns what it returns at its deadline.
pub mod Rounds
pub mod Streaks
mod Tests
use decentralized_cc_mesh_po.Base.{
  ltb, leb, ◌==◌, if◌then◌else◌, Result, ok, err, ℕ, zero, suc, ◌+◌, ◌*◌, Bool, true, false, not,
  ◌&&◌, ◌||◌, Option, none, some, List, [], ◌∷◌, ◌++◌,
}
use decentralized_cc_mesh_po.Libvirt.Text.{
  Text, codes, text_eq, all, contains, is_ascii_digit, take_until, decimal, tokens, lines, count_of,
}
use decentralized_cc_mesh_po.Libvirt.Host.{
  sleep, History, Output, Outside, Config, virsh, read_domstate,
}

-- The first token of a row that has the shape of an address, up to its slash.
address_in : List Text → Option Text
address_in [] = none
address_in (token ∷ rest) =
    let ip = take_until (λ c. c == b'/') token in
    let later = address_in rest in
    if count_of b'.' ip == 3 && all (λ c. is_ascii_digit c || c == b'.') ip then some ip else later

pub find_lease : Text → List Text → Option Text
unfolding address_in
find_lease name [] = none
find_lease name (line ∷ rest) =
    let later = find_lease name rest in
    if contains line name
    then elim (address_in (tokens line)) [ some ip ↦ some ip | none ↦ later ]
    else later

no_lease : Config → Text → Text
no_lease c name =
    codes "tenant "
    ++ name
    ++ codes " did not acquire a DHCP lease within "
    ++ decimal c.dhcp_timeout_secs
    ++ codes "s"

lease_of : Text → Output → Option Text
unfolding find_lease
lease_of name out = if out.success then find_lease name (lines out.stdout) else none

ask_leases : Outside → History → History × Result Text Output
ask_leases o h =
    virsh o (codes "net-dhcp-leases" ∷ codes "default" ∷ []) (codes "virsh net-dhcp-leases") h

pub lease_loop : Outside → Config → Text → ℕ → ℕ → History → History × Result Text Text
lease_loop o c name deadline zero h = (h, err (no_lease c name))
lease_loop o c name deadline (suc fuel) h =
    if not (ltb (o.now_ms h) deadline)
    then (h, err (no_lease c name))
    else (let (h', out) = ask_leases o h in
        elim out [
          | err e ↦ (h', err e)
          | ok out ↦ elim (lease_of name out) [
            | some ip ↦ (h', ok ip)
            | none ↦ lease_loop o c name deadline fuel (sleep 1000 ∷ h')
          ]
        ])

-- The deadline is a sum of an `Instant` and a `Duration`, which panics in the source when the clock's
-- type cannot hold it. Here it is a number, for a configured timeout that is short of that.
pub wait_for_dhcp_lease : Outside → Config → Text → History → History × Result Text Text
wait_for_dhcp_lease o c name h =
    lease_loop o c name (o.now_ms h + 1000 * c.dhcp_timeout_secs) c.dhcp_timeout_secs h

-- The arguments of `confirm_domstate_debounced`.
pub record Debounce : Type 0 where
  pub container_id : Text
  pub target : Text
  pub consecutive : ℕ
  pub deadline_ms : ℕ
  pub interval_ms : ℕ

unconfirmed : Debounce → Text → Text
unconfirmed d last_observed =
    codes "domstate confirmation timeout for tenant "
    ++ d.container_id
    ++ codes ": wanted "
    ++ d.target
    ++ codes " × "
    ++ decimal d.consecutive
    ++ codes ", last observed "
    ++ last_observed

-- The streak and the last state after a read, and whether the read ends the loop.
observed : Debounce → Result Text Text → ℕ → Text → ℕ × Text
observed d (err e) streak last_observed = (0, last_observed)
observed d (ok state) streak last_observed =
    (if text_eq state d.target then streak + 1 else 0, state)

settles : Debounce → Result Text Text → ℕ → Bool
settles d (err e) streak = false
settles d (ok state) streak = text_eq state d.target && leb d.consecutive (streak + 1)

pub confirm_loop :
    Outside → Debounce → ℕ → ℕ → ℕ → Text → History → History × Result Text (Unit {0})
confirm_loop o d deadline zero streak last_observed h = (h, err (unconfirmed d last_observed))
confirm_loop o d deadline (suc fuel) streak last_observed h =
    if not (ltb (o.now_ms h) deadline)
    then (h, err (unconfirmed d last_observed))
    else (let (h', read) = read_domstate o d.container_id h in
        let (streak', last_observed') = observed d read streak last_observed in
        elim (settles d read streak) [
          | true ↦ (h', ok tt)
          | false ↦ confirm_loop o d deadline fuel streak' last_observed' (sleep d.interval_ms ∷ h')
        ])

-- With an interval of at least a millisecond, there are at most `deadline_ms` rounds.
pub confirm_domstate_debounced : Outside → Debounce → History → History × Result Text (Unit {0})
confirm_domstate_debounced o d h =
    confirm_loop o d (o.now_ms h + d.deadline_ms) d.deadline_ms 0 [] h

abbrev pub paused_state : Text
paused_state = codes "paused"

abbrev pub running_state : Text
running_state = codes "running"
