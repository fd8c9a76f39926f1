-- ===== src/Lib.antt =====
-- Register access of hdlskel: the Python packages regio and skmap.
--
-- A `Regio` reads and writes bytes of a device in blocks of its MTU. The device can be a cache of
-- sparse memory that is saved to a file, or a TCP client whose server has a `Regio` of its own
-- behind it. skmap builds registers and modules on top of a `Regio`.
--
-- Base: shared names, lists, results and exceptions, methods on state, integers, bytes, bits.
-- Cache: pip/regio/src/regio/cache.py. The list of regions is `_regions`; `cache_write`,
-- `cache_read`, `merge_write`, `validate_addr_size` are the methods of these names. Cache/File
-- has `save_to_file` and `load_from_file` on the bytes of a file.
-- Regio: pip/regio/src/regio/regio.py. A device is the record of the two abstract methods over
-- a state; `write_chunk` and `read_chunk` are `_write` and `_read`. Regio/Memory states the
-- contract of a byte memory, which Cache/Device, Tcp/Remote and External/Shift fill. Regio/Files
-- copies to and from files.
-- Tcp: pip/regio/src/regio/tcp.py, the heads on the wire. Tcp/Server and Tcp/Segments:
-- tcp_server_async_multi.py beside it, for the buffer of one client. Tcp/Single:
-- tcp_server_single.py. Tcp/Client: tcp_client.py over a transport that is a parameter;
-- Tcp/Loopback joins it to the server.
-- Head: pip/skmap/src/skmap/head.py.
-- External: pip/skmap/src/skmap/external_mem.py, a window of another device with a cache of it, and
-- Types: basic_types.py beside it.
-- Module: pip/skmap/src/skmap/module.py. Module/Access is the cache of a module and the `Regio`
-- behind it, Module/Layout the addresses of its registers, Module/Init its constructor,
-- Module/Factory the choice of its class, Module/Asserts its asserts and what is cleared, and
-- Module/Export the tree of its caches in a file.
-- Reg: reg.py beside it, over Module/Access. Reg/Values has what a register keeps and checks, Reg the
-- class of that name, Reg/Vec with its children `RegVec`, Reg/Flags `RFlag` and `RegFlags`. The
-- expressions that check and convert values are functions, and floats are a parameter.
-- Resolvable: code_generator_parse_resolvable.py. Resolvable/Parser is the parser over tokens,
-- Resolvable/Eval the evaluation; Resolvable has the trees and the folding of constants.
-- Basic: pip/skmap/src/skmap/basic.py.
--
-- Loops that Python runs until a condition holds take fuel: the length of the data and one more
-- for the loops that take a byte at least in each round, the number of regions and one more for
-- the binary search, the length of the sub-header for its scan, and for the parser 16 for each
-- token and 16 more, as no more calls nest without taking a token. An exception is a
-- value, and a method that changes state before it raises gives the changed state back with it.
-- Numbers that Python callers can make negative are integers; the others are natural numbers.
--
-- Not modelled: printing and logging, sockets, selectors and event loops below the bytes that
-- they carry, timeouts, the user interfaces and the code generators, which print text, the
-- splitting of an expression into tokens by a regular expression, the reversal of conversions, the
-- making of a module's kids and the asserts over a tree, and the recipe files.
pub mod Base
pub mod Cache
pub mod Regio
pub mod Tcp
pub mod Basic
pub mod Types
pub mod External
pub mod Head
pub mod Module
pub mod Reg
pub mod Resolvable
