-- ===== src/Lib.antt =====
-- Verification library of the chat desktop client, a Qt program in C++.
--
-- The program is in four layers. `src/core` holds the services: an encrypted record store in one
-- file, an HTTP client with retries, XMPP, WebRTC and platform code. `src/features` holds chat,
-- voice calls and authentication, each with a domain (entities, use cases, repository interfaces),
-- a data layer and view models for QML. This library models the parts below; each file names its
-- source in its first lines.
--
-- Storage: src/core/storage.
--   Of local_storage.cpp, Bytes: `w32`, `w64`, `r32`, `r64`. Device: `writeBlock`, `readBlock`,
--   `aeadEncrypt`, `aeadDecrypt`, `synceFd`. Maps: the ordered maps and sets of the class.
--   Records: `alloc`, `writeChain`, `insert`, `get`, `update`, `remove`, roots, `sync`, with the
--   members of the class as the record `Store`. Contents: the abstract table of records and the
--   invariant `Represents`. Api, DirectoryLaws, Device/Laws and Records/Writing hold the theorems.
--   The file is a map from block numbers to blocks; each write, sync and read may fail as the
--   environment `World` says, and an exception keeps what was written. What the theorems say that
--   an identifier reads as is what `get` gives where no read fails. Chain walks take the number of
--   blocks as fuel, as the code's loop guard does, and `get_total` shows that it suffices. OpenSSL
--   is a parameter that decrypts what it encrypts. Opening a file is not modelled: `setPath`,
--   `createHeader`, `loadHeader`, `scan`, and the byte loops `preadFull` and `pwriteFull`.
--   MessageCache: src/core/storage/message_cache.cpp, whose stores and files are an interface.
--
-- Upload: src/features/chat/domain/repository/upload_cancellation.hpp.
--   Cancellation: `track`, `cancel`, `isCanceled`, `tryCommit` as atomic operations on a token and
--   futures that share their state; a history is a list of operations. `QFuture` is a parameter.
--
-- Network: src/core/network.
--   Policy: http_method.hpp, network_error.hpp, retry_policy.hpp. Client: network_client.cpp with
--   the request and response types. Client/Attempts: `send` and `executeAttempt`, where a retry
--   timer is a recursive call on fuel; one step more than the policy's retries is enough. Qt's URL,
--   JSON and request types are parameters, and so is what the network does to each attempt. The
--   download service, the monitor, the certificate chain and the two interceptors are not modelled.
--
-- Chat: src/features/chat.
--   Entity: domain/entity/messag_payload.hpp. MessageList: the rows, pages and request numbers of
--   presentation/viewmodel/messaging_vm.cpp, with `applyFetchedMessages`; MessageList/Operations has
--   the other operations; what the event loop runs is a list of actions, and the
--   signals of the list model go to a log. Its downloads, uploads, voice and attachments are not
--   modelled. SendMessage: domain/usecase/send_message_usecase.cpp; the repository's futures enter
--   as endings in the order of the event loop, and the destruction of the use case is left out.
--   Wire: data/dto/message_payload_dto.hpp and `fromArray` of src/core/network/json_serializer.hpp,
--   with Qt's JSON as a parameter; Wire/Batches is `MessageDto::toDomain`. HistoryCache:
--   data/repository/message_history_cache.hpp over an interface to `MessageCache`, which
--   Storage.MessageCache fills in the examples; Pending has the list that it refines and the condition
--   that the cache works, which a read that fails breaks. Repository/Queue: the send queue of
--   data/repository/message_repository_impl.cpp, `enqueue`, `nextProcess`, `cancelFileUpload` and the
--   destructor; a history is a list of what users, futures and the connection do.
--   Repository/Uploads: what `sendFiles` does once its entry starts, with the token of Upload between
--   the steps, and data/mapping/message_payload_mapper.hpp. The rest of the repository, which fetches
--   and receives messages, is not modelled.
--
-- Voip: src/features/voip.
--   CallVm: presentation/viewmodel/call_vm.cpp, with the answers of the system as arguments. The
--   request counter wraps at 2 ^ 64, as the code's does, and a theorem that needs it not to wrap
--   bounds the length of the history. Jingle: signaling/jingle_service.cpp, where the use of an
--   object that is gone is a crash; IceServer: signaling/ice_server.hpp.
--   Jingle/Media has the phases of the service. The Jingle extension and its XML are not modelled.
--
-- Prelude holds what these share: tests on native numbers, lists, texts and signed integers.
-- Authentication, contacts, XMPP, WebRTC and platform code are not modelled: forms and wrappers of
-- libraries that the repository does not hold.
pub mod Prelude
pub mod Upload
pub mod Storage
pub mod Network
pub mod Chat
pub mod Voip
