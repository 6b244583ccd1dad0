-- ===== src/MessageRw.antt =====
-- `MessageRw`, the reader and writer of the message scratch buffer (src/mailbox.rs).
use rust_lib.Common.{Result, ok, length, fill}
use rust_lib.Host.{Host, Run, pure, ◌>>=◌, invoke, message, MessageCall}
use rust_lib.LunaticError.{IoError}
use rust_lib.Serde.{Writer, Reader}

module _ ⦃h : Host⦄ where
  unfoldable pub write : Writer
  write buf = do n ← invoke (message (MessageCall.write_data buf)); pure (ok n)

  unfoldable pub read : Reader
  read buf = do
    (n, written) ← invoke (message (MessageCall.read_data (length buf)))
    pure (ok (n, fill buf written))

  unfoldable pub flush : Run (Result Unit IoError)
  flush = pure (ok tt)
