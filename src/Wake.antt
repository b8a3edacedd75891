-- ===== src/Wake.antt =====
-- internal/provider/wake/wake.go: magic packets for other hosts on this machine's links. The sockets
-- and net.ParseMAC are not the program's: they are the record `Sender` and the function `parse`.
pub mod Wire
pub mod Reports
use fog_agent.Prelude.{
  ℕ, zero, suc, ◌+◌, ◌≡◌, Bool, true, false, not, ◌&&◌, ◌||◌, List, [], ◌∷◌, ◌++◌, Option, none,
  some, ◌==◌, ltb, if◌then◌else◌, length, take, Text, text, ◌=ᵗ◌,
}
use fog_agent.Prelude.Int.{ℤ}

abbrev pub max_targets : ℕ
max_targets = 32

pub record Target : Type 0 where
  pub id : ℤ
  pub macs : List Text

pub data Status : Type 0 where
  sent failed : Status

-- What a failure or a success is about, as the source formats it.
pub data Why : Type 0 where
  no_interfaces : Why
  unreadable : Text → Why
  no_mac : Text → Why
  no_packet : Why
  last_error : Text → Why
  summary : ℕ → ℕ → ℕ → Why

-- Report; Error is empty on success, and equals Detail on a failure.
pub record Report : Type 0 where
  pub target : Target
  pub status : Status
  pub packets : ℕ
  pub detail : Why

-- A datagram that was asked for: the address and the payload.
abbrev pub Datagram : Type 0
Datagram = Text × Text

-- Sender: the broadcast addresses, or the error of reading them; and the error of a send, which may
-- depend on all that was sent before.
pub record Sender : Type 0 where
  pub broadcasts : List Text
  pub unreadable_interfaces : Option Text
  pub send_error : List Datagram → Datagram → Option Text

-- What a run has asked the sockets for so far, oldest first.
abbrev pub Log : Type 0
Log = List Datagram

unfoldable pub repeat : ℕ → Text → Text
repeat zero t = []
repeat (suc n) t = t ++ repeat n t

-- magicPacket
unfoldable pub magic_packet : Text → Text
unfolding repeat
magic_packet mac = repeat 6 (0xFF ∷ []) ++ repeat 16 mac

abbrev pub member : Text → List Text → Bool
member t [] = false
member t (u ∷ us) = u =ᵗ t || member t us

module _ (trim : Text → Text) (parse : Text → Option Text) where
  -- parseMAC
  unfoldable pub parse_mac : Text → Option Text
  parse_mac raw = elim (parse (trim raw)) [
    | none ↦ none
    | some mac ↦ if not (length mac == 6) then none else some mac
  ]

  -- The loop of parseMACs: what is kept so far, and the first value that was refused.
  unfoldable pub parse_macs_from : List Text → Text → List Text → List Text × Text
  unfolding parse_mac
  parse_macs_from out bad [] = (out, bad)
  parse_macs_from out bad (raw ∷ rest) =
      let bad' = if bad =ᵗ [] then trim raw else bad in
      elim (parse_mac raw) [
        | none ↦ parse_macs_from out bad' rest
        | some mac ↦ parse_macs_from (if member mac out then out else out ++ mac ∷ []) bad rest
      ]

  -- parseMACs; mac.String() tells two addresses apart exactly if their bytes differ.
  unfoldable pub parse_macs : List Text → List Text × Text
  unfolding parse_macs_from
  parse_macs raws = parse_macs_from [] [] raws

-- What the two loops of wakeOne change: the log, the count and the last error.
pub record Progress : Type 0 where
  pub log : Log
  pub count : ℕ
  pub last : Option Text

module _ (sender : Sender) where
  unfoldable pub send_one : Text → Progress → Text → Progress
  send_one packet g dst =
      let log' = g.log ++ (dst, packet) ∷ [] in
      elim (sender.send_error g.log (dst, packet)) [
        | some e ↦ record g { log = log'; last = some e }
        | none ↦ record g { log = log'; count = g.count + 1 }
      ]

  -- The inner loop, over the broadcast addresses.
  unfoldable pub send_each : Text → Progress → List Text → Progress
  unfolding send_one
  send_each packet g [] = g
  send_each packet g (dst ∷ dsts) = send_each packet (send_one packet g dst) dsts

  -- The outer loop, over the addresses to wake.
  unfoldable pub send_all : Progress → List Text → List Text → Progress
  unfolding send_each
  send_all g [] dsts = g
  send_all g (mac ∷ macs) dsts = send_all (send_each (magic_packet mac) g dsts) macs dsts

  abbrev pub failure : Target → Why → Report
  failure t why = record { target = t; status = failed; packets = 0; detail = why }

  module _ (trim : Text → Text) (parse : Text → Option Text) where
    -- wakeOne
    unfoldable pub wake_one : Log → Target → List Text → Log × Report
    unfolding send_all parse_macs
    wake_one log t dsts =
        let (macs, bad) = parse_macs trim parse t.macs in
        let g = send_all (record { log = log; count = 0; last = none }) macs dsts in
        if length macs == 0
        then (log, failure t (no_mac bad))
        else if g.count == 0
        then (g.log, failure t (elim g.last [ none ↦ no_packet | some e ↦ last_error e ]))
        else (
          g.log,
          record {
            target = t;
            status = sent;
            packets = g.count;
            detail = summary g.count (length macs) (length dsts);
          },
        )

    -- The loop of Run.
    unfoldable pub wake_each : Log → List Target → List Text → Log × List Report
    unfolding wake_one
    wake_each log [] dsts = (log, [])
    wake_each log (t ∷ ts) dsts =
        let (log1, r) = wake_one log t dsts in
        let (log2, rs) = wake_each log1 ts dsts in (log2, r ∷ rs)

    abbrev pub fail_each : Why → List Target → List Report
    fail_each why [] = []
    fail_each why (t ∷ ts) = failure t why ∷ fail_each why ts

    -- Run, with the log of what it asked the sockets for.
    unfoldable pub run : List Target → Log × List Report
    unfolding wake_each
    run targets =
        let targets' = take max_targets targets in
        elim sender.unreadable_interfaces [
          | some e ↦ ([], fail_each (unreadable e) targets')
          | none ↦
              if length sender.broadcasts == 0
              then ([], fail_each no_interfaces targets')
              else wake_each [] targets' sender.broadcasts
        ]
