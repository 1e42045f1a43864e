-- ===== src/Lib.antt =====
-- Verification of parts of the GeckoOS kernel.
--
-- The network stack (kernel/net). The driver of the network card gives a frame to
-- `net_handle_packet` (net.c), which passes it to `arp_handle` (arp.c) or `ip_handle` (ip.c); that
-- passes its payload to `icmp_handle` (icmp.c) or `udp_handle` (udp.c), which calls the handler bound
-- to the port. In the other direction `udp_send` and `icmp_handle` call `ip_send`, which resolves the
-- next hop with the ARP cache and gives a frame to `net_send_frame`. While it waits for an ARP reply,
-- `ip_send` calls `net_handle_packet` on what arrives, so the two are recursive. The DNS client
-- (dns.c) builds a query, starts a UDP request with it and parses the reply.
--   Net/Host      the variables of all these files as one record `Host`, with the frames sent, the
--                 calls of foreign handlers, the clock, and what the card will receive
--   Net/Bytes     buffers as lists of bytes, reads and writes at an offset, byte order
--   Net/Checksum  `checksum_add`, `udp_checksum`, `ip_checksum`, `icmp_checksum`
--   Net/Frame     `net_init`, `net_send_frame`
--   Net/Arp       `arp_init`, `arp_handle`, `arp_request`, `arp_resolve`; Cache and Resolve prove
--   Net/Udp       `udp_bind`, `udp_unbind`, `udp_handle`, `udp_send`, `udp_request_start`,
--                 `udp_request_try_reply`, `udp_request_finish`; Bindings, Datagram and Request prove
--   Net/Icmp      `icmp_handle`, `icmp_send_echo_request`, the flag; Echo proves
--   Net/Ip        the header, the transmit buffer, the next hop and `ip_handle`; Header proves
--   Net/Stack     `net_handle_packet` and the loops of `ip_send`; Terminates and Deliver prove
--   Net/Dns       names, `send_dns`, `dns_skip_name`, `dns_parse_reply`; Name, Reply, Lookup prove
-- Static arrays are lists, a loop over an array is a recursion on the list. A packet is the list of
-- the bytes from its pointer on; it may be longer than its length says, and a read past its end gives
-- 0. What `ip_send` does is an argument of the code below it (`IpSend`), so that each layer is stated
-- for every network layer, and Net/Stack ties the knot. An `Outcome` is a state, a write outside a
-- buffer, or fuel that ran out.
--
-- Physical memory (kernel/mem/physical_mem/physical_mem.c).
--   Memory/Physical  the bitmap of 4 KB blocks, its search, allocation, release, and the regions of
--                    the memory map; Blocks, Find, Alloc and Boot prove
-- The bitmap is a function from the index of a word to the word, since no index is checked against
-- its size. Numbers are natural numbers with the wrap-around of their width written out; an `int32_t`
-- is its bit pattern.
--
-- The heap (kernel/mem.c).
--   Memory/Heap  the memory functions, and `kmalloc`, `kfree` and `combine_blocks` on the list of
--                blocks; Move and Cycle prove
-- Memory is a function from an address to a byte, the list one from an address to the header of a block.
-- A search along the list runs on fuel, since the list may be a cycle. `strlen` is not modelled.
--
-- Processes (kernel/process/process.c).
--   Process/Queue  the ring of processes that are ready, `enqueue` and `dequeue`; Fifo proves
-- The memory that `kmalloc` gives for a new queue is an argument.
--
-- The GK language (kernel/gk). `gk_run` gives a source to `gk_lex`, its tokens to `gk_parse`, and the
-- root of the tree to `eval`, which prints and reads lines.
--   Gk/Token   tokens, the state of the lexer (gk.h), and `emit`
--   Gk/Lexer   the loops of `gk_lex`; Emit, Read and Indent prove
--   Gk/Ast     nodes, the state of the parser and its helpers; Grown, Tokens and Made prove
--   Gk/Expr    `parse_primary` to `parse_expr`; Nodes proves
--   Gk/Parser  `parse_block`, `parse_stmt` (a function for each statement) and `gk_parse`; Loops,
--              Blocks and Nodes prove
--   Gk/Value   values, their truth and text, and the reading of `int()`; Decimal proves
--   Gk/Store   `GkState`, `find_var`, `set_var`, `pop_scope`, `find_func`; Sound and Vars prove
--   Gk/Eval    the cases of `eval` for expressions and built-in functions; Sound and Operators prove
--   Gk/Interp  the other cases, `eval`, `gk_init` and `gk_run`; Loops, Calls, Sound and Run prove
-- `indent_stack` is a list without its entry 0, which is 0. An `int` is a bit pattern. The position in
-- the tokens is the list of those that are left; nodes are a list, and an index is a position in it.
-- The mutually recursive functions of the parser, and `eval`, take the function that is called on
-- something nested as an argument, up to the one that ties the knot (`parse_expr`, `parse_stmt`,
-- `eval`). A write behind an array, a read of a node or child that nobody made, a name that does not
-- fit its buffer, and a fault of the division are outcomes. `error` of the interpreter is the failure,
-- not its text. What `input` returns is a list of lines in the state.
--
-- The editor (kernel/editor/editor.c).
--   Editor/Text     the variables as a record, lines and columns, insertion, removal and the moves of
--                   the cursor; Lines and Edit prove
--   Editor/Draw     the rows, the status bar and `ed_redraw`
--   Editor/Session  `ed_save`, `ed_load` and the loop of `editor_run`; Bounds, Quit and Load prove
-- `ed_buf` is a function from an index to a character, since the code tests no index. The screen is the
-- list of what was put on it. The mounted file system is an argument; what a write of it gives may
-- depend on all the writes before.
--
-- The keyboard (kernel/drivers/keyboard.c), whose scancodes the editor waits for.
--   Keyboard  `process_keypress`, `scancode_to_ascii`, `ps2_kb_wfi`, `ps2_kb_init`, `set_layout`
-- What the interrupt leaves for a call of `ps2_kb_wfi`, and the byte that the call reads after 0xE0,
-- are an element of a list (`Reading`), so that every order of interrupts is an instance.
--
-- Bounds and fuel. The folding loop of a checksum gets three rounds, which are enough for every
-- `uint32_t`. `ip_send` gets fuel for the depth of its calls and the rounds of its loops; the number
-- of frames still to be received and 22 more are enough, since a call within a call has used up a
-- frame, and each round of the waiting loop lets at least one tick go by. Skipping a name gets one
-- round more than the message has bytes. The loops of the lexer get one round more than characters are
-- left; each of their rounds takes a character or ends. The parser gets three more rounds than tokens:
-- a nested statement or a round of a loop has taken a token, and each level of nested expressions takes
-- one. `eval` gets fuel for its depth and for the rounds of `while`, which no number bounds for every
-- program. The editor loads a file in at most as many reads as its buffer has characters.
--
-- Not modelled: the card's driver and the clock beyond what is said above; the alignment of buffers;
-- what interrupts do meanwhile, except for the keyboard; the tick counter's wrap-around; the text of the error messages of GK.
-- The other parts of the kernel (file system, paging, the other drivers, terminal) are not modelled.
pub mod Common
pub mod Memory
pub mod Net
pub mod Process
pub mod Gk
pub mod Keyboard
pub mod Editor
