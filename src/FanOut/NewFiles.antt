-- ===== src/FanOut/NewFiles.antt =====
-- From a new file to its deliveries: the state after SERVER_INDEX_HANDLE_NEW_FILE serves every entry.
use distributed_storage_syst.Server.{Server}
use distributed_storage_syst.FileServer.{FileServer}
use distributed_storage_syst.FileServer.Table
use distributed_storage_syst.NetIndex
use distributed_storage_syst.NetIndex.{NetIndex}
