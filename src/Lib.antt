-- ===== src/Lib.antt =====
-- dpkt parses packets and captures of many protocols and builds on that: it joins TCP segments into
-- byte streams, takes files out of streams, and draws the topology of a network. This library models
-- the parts listed here from the source, function by function.
--
-- How the parts interact: a capture reader hands frames to the link, IP and TCP parsers;
-- StreamReassembler of dpkt/stream.py takes the TCP segments and hands the joined bytes to callbacks;
-- protocol parsers such as dpkt/quic.py and dpkt/http3.py read such bytes. http3.py reads every number
-- with decode_varint of quic.py.
--
-- Which file models which part:
--
-- Base and its children hold what the parts share: tests on numbers, lists with native lengths, Python's
-- integers (Base.Int), bit masks as arithmetic (Base.Bits), byte strings with slices and big-endian words
-- (Base.Bytes), split and join (Base.Split), exceptions as values (Base.Results) and the loop of the parsers (Base.Loops).
--
-- dpkt/stream.py:
--   Stream.Segments   the segment list of DirectionBuffer: sorting, merging of overlaps, the cascade that
--                     joins segments to the contiguous bytes
--   Stream.Buffer     DirectionBuffer: feed, get_data, is_complete
--   Stream.Connection Connection: feed, is_closed, merged_data with its sort key and positions
--   Stream.Reassembler and Stream.Reassembler.Feed
--                     StreamReassembler: the connection table with its keys, feed with callbacks and the
--                     buffer limit, _evict_one, find, on_data
--   The other modules below Stream hold proofs, each named for what it proves; Stream.Tests and
--   Stream.Examples hold runs on concrete packets.
-- dpkt/quic.py:
--   Quic.Varint       decode_varint, encode_varint
--   Quic.Frames       the frame classes' unpack methods, get_frame_parser, _frame_byte_size
--   Quic.Parse        parse_frames
--   Quic.Header       QUIC.__new__, QUICLongHeader.unpack, QUICShortHeader.unpack
-- dpkt/http3.py:
--   Http3.Frames      the frame classes, their dispatch, parse_http3_frames
-- dpkt/qpack.py:
--   Qpack.Instructions _decode_int and the instruction classes
--   Qpack.Parse       parse_qpack_encoder, parse_qpack_request
-- dpkt/dpkt.py:
--   Packet.Checksum   in_cksum_add, in_cksum_done, in_cksum
--   Packet.Header     the fields of a header in the order of __hdr__: unpack, pack_hdr, the exceptions of
--                     __init__
--   Packet.Struct     struct.pack and struct.unpack where a class calls them itself
-- dpkt/dns.py:
--   Dns.Names         pack_name, unpack_name
--   Dns.Utf8          the decoding of names
--   Dns.Flags         the properties of DNS.op
--   Dns.Records       RR with pack_rdata and unpack_rdata
--   Dns.Message       DNS: pack_q, unpack_q, pack_rr, unpack_rr, unpack, __bytes__
--   Dns.Spelling says what it means that a buffer spells a name, Dns.Compression is about pack_name and such
--   spellings, and Dns.RoundTrip about names, questions, records and messages that are written and read.
-- dpkt/tftp.py:
--   Tftp              TFTP: the messages, the options and the two modes of reading; Tftp.Items is about the
--                     options, Tftp.Messages and Tftp.Reading about whole messages
-- dpkt/ip6.py:
--   Ip6               IP6 as it is read, with its extension headers; Ip6.Chain is about the loop over them
-- dpkt/ip.py and dpkt/udp.py:
--   Ip                IP: unpack, __bytes__ with the checksums, len, set_proto; what it calls of the packet
--                     that it carries is the interface Transport
--   Ip.Transports     UDP, and TCP and UDP as such packets
-- dpkt/crc32c.py and dpkt/sctp.py:
--   Crc32c            add over the table, done, cksum
--   Sctp              SCTP and Chunk
-- dpkt/tcp.py:
--   Tcp.Header        TCP: unpack with the options and the data, __bytes__
--   Tcp.Options       parse_opts
--
-- How the source's values are modelled: bytes are lists of numbers; a dict is an association list in the
-- order of insertion; an object is a record, and a method that changes it is a function from the record
-- to the record; a callback is kept by name, and a call of it is an entry in a list of deliveries; an
-- exception is a value of Base.Results.Error. Sequence numbers are Python integers, without wrap, as in
-- the source; rel_seq may be negative and is then an integer of Base.Int.
--
-- Bounds and fuel: the loops of stream.py and the checksum are structural; parse_opts of tcp.py has a round
-- for each byte (Tcp.Options). unpack_name of dns.py
-- has off + 256 rounds, since each follows a pointer to a smaller offset or uses up a byte of the 255 of a
-- name (Dns.Ending). The loops of the other parsers
-- (Base.Loops.read_loop) count the rounds that succeed. Each round reads from inside the buffer and goes
-- forward, so that as many rounds as the buffer has bytes are enough (Base.Loops).
--
-- The loop of ip6.py over the extension headers has one round more than there are bytes, since each header
-- is eight bytes or longer, and that over options as many as the header claims to be long (Ip6.Chain).
--
-- Not modelled: reading capture files into the reassembler (feed_pcap, feed_pcaps and _process_packet
-- need the Ethernet parser); writing IPv6 packets; the container methods of StreamReassembler; the TLS records
-- inside a QUIC CRYPTO frame, the key log and the placeholder decrypt of QUIC; fields of other formats than big-endian
-- unsigned numbers, __bit_fields__ and the printing of packets; all other protocols.
pub mod Base
pub mod Crc32c
pub mod Dns
pub mod Http3
pub mod Ip
pub mod Ip6
pub mod Packet
pub mod Qpack
pub mod Quic
pub mod Sctp
pub mod Stream
pub mod Tcp
pub mod Tftp
