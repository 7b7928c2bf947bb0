-- ===== src/Lib.antt =====
-- Spellbook: a daemon that keeps an agent's wallets, and the relay that carries its Chia messages.
--
-- An agent holds a request token and a human an approve token. A request reaches `handle`
-- (src/spellbook/daemon.py) over a Unix socket; it passes the token, the peer's UID, the route table
-- and the backup gate, and then a handler checks the intent, asks the policy
-- (src/spellbook/policy.py) about each asset that would leave, and queues, denies or executes it.
-- Queue, velocity window and decision ledger are the daemon's state; the first two live in files too.
-- The relay (relay/) talks to Chia peers in the Streamable format.
--
-- Where each part is modelled:
-- - Policy: `Policy` and `evaluate` of src/spellbook/policy.py.
-- - Daemon/Data, Daemon/State: the state of `Daemon` (queue and its file, velocity rows and their
--   file, ledger rows of src/spellbook/ledger.py) and the primitive updates.
-- - Daemon/Legs: `chia_asset_kind`, `_merge_legs`, `_velocity_entries`, `dex_asset_key`.
-- - Daemon/Fund: `_decide_fund_intent`, `_run_fund_intent`, `rt_queue_approve`, `rt_queue_reject`.
-- - Daemon/Spend: `rt_request_spend`. Daemon/Handle: `_auth`, `handle`, the route tables.
-- - Daemon/Unresolved: `unresolved_executions`. Daemon/SignWindow: `DashboardSignWindow`.
-- - The other modules below Daemon and Policy are named for what they prove. Examples has concrete
--   inputs and runs.
-- - Streamable: relay/streamable.py. Bytes has the reader, Values the numbers, byte strings and lists,
--   Clvm the program scanner, Utf8 the texts, Coins the coins and `parse_spend_bundle`, Messages the
--   envelope, the handshake and the wallet messages. Reads and RoundTrips hold the proof rules of the
--   round trips. The scanner's loop has one unit of fuel more than there are bytes, since each turn
--   moves by a byte at least; the UTF-8 reader has one for each byte, and the count of leading ones
--   eight, the bits of a byte.
-- - ChiaSign: the CLVM writer, reader and tree hash of src/spellbook/chia_sign.py. The writer has a
--   unit of fuel for each node, the reader two for each byte and one more, the tree hash one for each
--   atom and two for each pair, the number of their turns.
-- - SeedRole: `check_wallet_root` of src/spellbook/seedrole.py and what it calls.
-- - Relay: relay/peer.py. Peer is `ChiaPeer` with its one request in flight; where the code awaits, a
--   step of Peer/Steps ends, and the steps come in any order. Peer/Connect is the end of `connect`.
--   Manager is `PeerManager`: cache, pool, retirement and the choice of a peer; the socket, the tasks
--   and the introducer's DNS are events and arguments. Server is relay/server.py: Gate the middleware and
--   the routes, Handlers what is checked before a network's manager is called.
-- - Abi: src/spellbook/abi.py. Values has the values that cross the socket, Types the type strings,
--   Encode and Decode the two directions, Decode/Spans the spans of `_array_span`. Every loop runs over
--   the dimensions of a type, over values, or over a length that was read; a length beyond the data
--   stops at the first word that is missing. A text is its code points, and `str.isdigit` is
--   that of ASCII. The JSON shape of a method's fragment is outside the model: its name and
--   its input types are arguments. Keccak is a parameter.
-- - Solana: base58 of src/spellbook/solana.py. The digits of a number have that number as their fuel,
--   more than the turns that there are, since each turn divides it.
-- - Dex: src/spellbook/dex.py. Tokens, Pins and Calls have its tables and checks, Settler the
--   AllowanceHolder's call, Layout and V4Swap the v4 swaps, Commands and Router the Universal Router's
--   call, Swap `decode_swap_tx`, Validate the plan of an approved swap. Liquidity, Positions and
--   V4Positions decode the liquidity calls, Words is the ABI encoder of the builders, and Builders and
--   V4Builders are those. The contracts are no part of the repository: what the router's commands do is
--   a relation on them and their inputs, Router/Effects; V4Swap/Sale says what the input of a V4_SWAP
--   has to be, and Commands/Sound what that of the others says. The arguments of a function that only name it in an error are left out,
--   a dict it returns is a record of what it found, and a number below zero reaches only the ticks, a
--   transaction's value and a quote's buy amount. `int` reads ASCII digits.
--
-- How the code is read. Amounts, limits and times are natural numbers: the handlers refuse
-- negative amounts before policy sees them. The clock is read once in a call, but for the lines
-- of the velocity file, which are stamped by later readings. A params dict that has passed its
-- handler's checks is a constructor of `Params` with the keys that are read; the fields of a
-- request_spend are a dict of JSON values, where a chain, asset or destination that is no text is
-- outside the model. Queue ids, which the code writes in decimal, are numbers. The digest of
-- canonical JSON, the outcome of an execution and whether the backup is pending are parameters of
-- each call. `str.lower` is that of ASCII. No function takes fuel in the daemon: every loop runs
-- over a list.
--
-- Not modelled: what an execution does on a chain, the checks of the routes other than request_spend,
-- the key and seed code, the HTTP clients of the exchanges, the other chain encodings, the command lines
-- and the web front end; hashing and signatures are third-party code.
pub mod Prelude
pub mod Policy
pub mod Daemon
pub mod Streamable
pub mod ChiaSign
pub mod SeedRole
pub mod Relay
pub mod Abi
pub mod Solana
pub mod Dex
pub mod Examples
