-- ===== src/Lib.antt =====
-- The FOG agent, the program on a managed machine that enrolls with a FOG server, polls it and
-- applies what it answers. This library models the parts that decide: what may replace the binary
-- and how that is undone, who is logged off, when the machine restarts, how it boots from the
-- network, which other machines it wakes, when a schedule fires, which identity it presents, and how
-- a poll leads to all that.
--
-- The parts and where they stand. Agent: the poll loop of cmd/fog-agent, which calls the others.
-- Agent.World has the agent's configuration and the log of what was done to the outside, Agent.Polls
-- one pass of runAgent's loop from the poll on with waitOrFire and renew, Agent.Facts facts.go,
-- Agent.Sessions sessions.go, autologout.go and Closed of internal/usersession/usersession.go,
-- Agent.Reconcile reconcile, capabilityOrder and reconcileHeld of main.go, Agent.Reconcile.Data the
-- desired state of internal/enroll/client.go, Agent.Reconcile.Queues runSnapins, runSoftware,
-- runPrinters, runWake and runDirectory, Agent.Drift the drift check, Agent.Coordinate coordinate
-- and planReboot. A pass sends the facts and sessions that are due, reads what the poll came to,
-- reconciles a new revision, lets the coordinator decide on a restart and sleeps. What the outside
-- answers is in the records Coordinate.Platform, Reconcile.Data.Machine and Polls.Pass, whose
-- functions read the log: the providers, the client, the clock, the next firing of a schedule and
-- the firmware. The self-update is one of those answers here, and the update's own records appear in
-- the log only as settled. Version: Compare and Valid of internal/provider/update/version.go, the
-- order of versions. Release: internal/release/release.go, Verify, Fresh, Find and CopyVerified.
-- Update: the rest of internal/provider/update. Update.Files has the files and the calls of the
-- operating system, Update.Records the records, Arm, Revert and swap of probation.go, Update.Run has
-- Run of update.go (its types and reports in Update.Run.Data) with inline of served.go. Run asks
-- Version whether to go on, Release whether a manifest counts, saves its sequence, stages the
-- artifact through CopyVerified, arms the rollback and swaps the binary. AutoLogout:
-- internal/provider/autologout/autologout.go. Reboot: internal/reboot/reboot.go. Update.Probation:
-- cmd/fog-agent/update.go. Packages: internal/provider/software/software.go. Netboot:
-- internal/netboot/netboot.go. Wake: internal/provider/wake/wake.go. Join:
-- internal/provider/directoryjoin/directoryjoin.go, and PrinterSet:
-- internal/provider/printerset/printerset.go, each with its backend as a record and the calls of it
-- as a list. Rejoin: the change of a machine's directory account that must not run twice.
-- Rejoin.Data and Rejoin.Valid have the plan of internal/provider/directoryjoin/rejoin.go and
-- rejoin_observe.go and its checks, Rejoin.Marker the marker on disk with attempt_archive.go,
-- Rejoin.World what one poll works on, Rejoin.Dispatch and Rejoin.Process processRejoin of
-- cmd/fog-agent/directory_rejoin.go without and with a marker, which loads the marker, reserves,
-- claims, latches, calls the operating system and waits for the restart that the coordinator makes.
-- Settle: what the agent trusts for its server, openState and settleTrust of cmd/fog-agent/main.go
-- on the disk and the state of Enroll, with acquireCA of cmd/fog-agent/caprobe.go. Enroll.Rotation:
-- RotateIdentity of internal/enroll/directory_features.go, on that disk and the marker's. Cron:
-- internal/provider/power/cron.go. Enroll: internal/enroll/state.go, with the records Host of
-- internal/identity/identity.go, Session of internal/usersession/usersession.go and Schedule of
-- internal/provider/power/power.go, which its configuration holds. Prelude has what they share. Each
-- definition carries the name of its function in snake case; a function that is long is cut into
-- definitions named for their part, and the comment above says of what. Tests runs them.
--
-- How the code is read. A string is its bytes, a time the nanoseconds since the zero time, an int an
-- integer whose wrap at 64 bits is written out where the code computes with it. A message that the
-- code formats is a constructor with the values that it shows, or the text itself where a report
-- carries it. A disk is a function from names to contents; each call of the operating system may be
-- refused, as a function of the call that does not change within one run, and a write that is
-- refused leaves its temporary file empty. The documents of the self-update are kept on disk as the
-- values that they encode; those of the enrollment are bytes behind a record of encoders and
-- decoders. The packages of the standard library that read certificates, check signatures, hash, and
-- parse JSON, base64 and hardware addresses, with strings.TrimSpace before the last, are parameters,
-- and so are sockets, firmware variables and the reader of a download, which may fail at any byte. A
-- map is a function, and sort.Slice an insertion sort, which is one of the orders that it may leave
-- for equal keys. The marker of a rejoin is bytes behind a record with its encoder and decoder; its
-- lock makes each call one change of the disk, and regular expressions that fold case,
-- strings.EqualFold and strings.ToLower are parameters. strings.Fields is a parameter too, as the
-- list that Cron.parse is given.
--
-- Fuel. The walk over a device path has one more than the number of its bytes, since every turn
-- drops four of them at least. The step loop of a schedule's field has 256 turns: a small step
-- counts up to at most 64, and one that overflows counts down by two turns at a time.
--
-- Not modelled: the start of runAgent, the enrollment before a pass, the identity and feature checks
-- of directory mode, the commands and the service, the lines that are printed, HTTP and its client,
-- TLS probes, the providers for snapins, activation and hostnames, the backends of the software, the
-- printers and the directory, the collectors of facts, the calls that list and end user sessions,
-- the search for the next firing of a schedule, the creation of requests and clients from the
-- enrollment state, cancellation by contexts and the pipe of payloadStream.
pub mod Prelude
pub mod Version
pub mod Reboot
pub mod AutoLogout
pub mod Release
pub mod Update
pub mod Netboot
pub mod Wake
pub mod Cron
pub mod Enroll
pub mod Agent
pub mod Packages
mod Tests
pub mod Rejoin
pub mod Join
pub mod PrinterSet
pub mod Settle
