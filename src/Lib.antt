-- ===== src/Lib.antt =====
-- ssheasy, an SSH client in the browser with a websocket proxy: the Go code of the proxy (proxy/)
-- and of the WebAssembly client (web/), translated by hand, and what is proved of it.
--
-- The proxy serves the page and relays its connections. A request passes the TOTP gate first
-- (Auth); a websocket is admitted by the address that it comes from and a connection by its target
-- (Access); its bytes go through the obfuscation layer (Obfs), which the client has too; and over
-- /pm many connections share one websocket (Mux). The client's file browser speaks SFTP over the SSH
-- session that the relay carries (Sftp). The page's files come from the static site (Site), over a
-- file server (FileServer) that answers conditional requests and byte ranges (Range). In the browser,
-- Terminal opens the SSH session, with a key of the authenticator (Webauthn) if the user has one; on
-- the server, Service holds the routes, the audit log and the end of the program.
--
-- Base             Go's int64, strings as lists of bytes, strconv, path/filepath, and maps as
--                  partial functions: what the program uses of the standard library
-- Http             net/http requests and headers, as the handlers see them
-- Auth             proxy/auth.go
--   Auth.Lockout   loginLocked and recordLogin over the table loginByIP
--   Auth.ClientIp  clientIP
--   Auth.Session   newSession, validSession, sign
--   Auth.Totp      verifyTOTP, totpAt
--   Auth.Config    initAuth, from the values of the environment
--   Auth.Login     handleLogin and handleLogout, with the clock read at each of its calls
--   Auth.Login.Halves  the two halves of the POST branch at the entry of one address
--   Auth.Login.Flight  the POST branch for requests in flight together, as a step relation
--   Auth.Gate      authMiddleware, isPublicAsset, authed
-- Range            proxy/fileserver.go: parseRange, sumRangesSize
-- FileServer       the rest of proxy/fileserver.go
--   FileServer.Etag        scanETag and the comparisons of entity tags
--   FileServer.Conditions  checkIfMatch to checkPreconditions
--   FileServer.Content     serveContent, with its multipart body
--   FileServer.Dir         Dir.Open with mapDirOpenError
--   FileServer.Files       serveFile, dirList, and the handlers of FileServer and ServeFile
-- Site             proxy/static.go: loadBranding and the handler of spaFileServer
-- Terminal         web/main.go: initConnection with showFingerprint and FingerprintMD5, as the actions
--                  that it takes, and the other calls of the page
-- Webauthn         web/webauth.go: the signer, its public key and parsePublicKey
-- Service          proxy/main.go: main, writeAuditLog, newLimters, bootHandshake, ping;
--                  proxy/admin.go: the routes of startAdmin
--   Service.Admission  from the black list of sources to the two websockets
--   Service.Dialling  con of web/main.go against both handlers of the proxy
--   Service.Login     from the login to the routes behind the gate
--   Service.Shutdown  the calls of handleWss as threads that interleave, over the counter that
--                     main waits for
-- Obfs             proxy/obfs.go and web/obfs.go: obfConn with its handshake, Read and Write
-- Access           proxy/main.go: the limits of the environment, getIPAdress and isAllowedTarger;
--                  proxy/admin.go: the handlers of the two black lists
-- Mux              proxy/mux.go and web/mux.go
--   Mux.Header     writeMuxHeader and readMuxHeader
--   Mux.Server     handleMuxWss and handleMuxStream, as the actions that they take
--   Mux.Client     muxSession, openMuxStream, dialMuxed, and con of web/main.go
--   Mux.Race       calls of dialMuxed that interleave, as a step relation
--   Mux.Link       both ends together, against the connection that they stand for
-- Splice           proxy/mux.go and web/reverse.go: the two copies behind a stream's header and behind a
--                  forwarded connection, with their tear-down, as a step relation
-- Sftp             web/browser.go
--   Sftp.Page      sftpClient, and the calls that initFileBrowserAPI sets
--   Sftp.Mode      safeMode, newFile and filesToJS
--   Sftp.Names     isUnique and the names that the uploads choose
--   Sftp.Trees     recDelete and chmod with their handlers
--   Sftp.Files     list, rename, move, copy, edit, getContent, createFolder
--   Sftp.Transfers upload, uploadToDownloads, download, downloadMultiple
-- Reverse          web/reverse.go: reverseForward, stopReverseForward and the listeners' loops, with
--                  the store that they share
--   Reverse.Conn   a round of a listener's loop, with handleReverseConn
--   Reverse.Sessions  the forwards over the SSH sessions of one page
-- Relay            proxy/main.go: handleWss, as the events that it causes; web/main.go: conLegacy
--   Relay.Copies   the two goroutines of handleWss that copy, as a step relation; the step that moves
--                  bytes is a round of io.Copy
--   Relay.Link     both ends together, against the connection that they stand for
--   Relay.Obfuscated  the same over the obfuscation layer
-- Traffic          proxy/main.go: limitedWriter; proxy/admin.go: setRate and the test of the key
--
-- In each component the module of the name holds the definitions, the modules below it hold its parts
-- and the proofs, and Examples holds the theorems at concrete inputs.
--
-- Stateful code takes its state and returns the new one; a mutex that the code holds over a whole
-- call makes the call one step. Parameters stand for what is not in the repository: HMAC, SHA-256,
-- the AES-CTR key stream, X25519, JSON, base32 and hex decoding, the token bucket of x/time/rate,
-- yamux, the websockets, the SFTP server with its state, x/crypto/ssh, go-webauthn, MIME types, dates
-- and multipart.Writer, and the operating system. int64 arithmetic wraps; a length field
-- of 16 bits is taken modulo 65536.
--
-- recDelete and chmod of Sftp.Trees recurse on the depth that they may reach, and report when it is
-- used up; Sftp.Trees.Ends names the depth that is enough. The loops of checkIfMatch and
-- checkIfNoneMatch run on as many rounds as the header has bytes, and one more, which
-- FileServer.Conditions.Ends shows to be enough. Everything else is structural recursion.
--
-- Not modelled: the metrics, the page of proxy/page.go, and the JavaScript, HTML and vendored
-- xterm sources under web/html.
pub mod Base
pub mod Http
pub mod Auth
pub mod Range
pub mod Obfs
pub mod Access
pub mod Mux
pub mod Splice
pub mod Sftp
pub mod Reverse
pub mod Relay
pub mod Traffic
pub mod FileServer
pub mod Site
pub mod Terminal
pub mod Service
pub mod Webauthn
