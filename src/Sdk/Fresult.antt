-- ===== src/Sdk/Fresult.antt =====
-- fog05-sdk/src/fresult.rs: the error type, its `Display`, and the conversions that `?` applies.
-- An error of another crate is represented by its text, which is all that the conversions keep.
use fog.Prelude.{String, ◌<>◌}

pub data FError : Type 0 where
  zconnector_error encoding_error too_much_error transition_not_allowed : FError
  not_found wrong_kind not_connected already_present : FError
  unimplemented malformed_descriptor has_instances : FError
  conversion_error io_error serialization_deserialization_error : String → FError
  z_error unknown_error networking_error hypervisor_error uuid_error : String → FError

-- `impl fmt::Display for FError`
unfoldable pub display : FError → String
display FError.zconnector_error = "Connection Error"
display FError.encoding_error = "Data has wrong encoding!"
display FError.too_much_error = "Expected less data!"
display FError.transition_not_allowed = "Transition Not allowed"
display FError.not_found = "Not Found"
display FError.wrong_kind = "Wrong kind!"
display FError.not_connected = "NotConnected"
display FError.already_present = "Already Present"
display FError.unimplemented = "Function is not implemented!!"
display FError.malformed_descriptor = "Malformed descriptor!"
display FError.has_instances = "Has instances!"
display (FError.conversion_error err) = err
display (FError.io_error err) = err
display (FError.z_error err) = err
display (FError.serialization_deserialization_error err) = err
display (FError.unknown_error err) = "Error " <> err
display (FError.networking_error err) = "NetworkingError " <> err
display (FError.hypervisor_error err) = "HypervisorError " <> err
display (FError.uuid_error err) = "UUIDError " <> err

-- `From<zenoh::ZError>`
abbrev pub from_zerror : String → FError
from_zerror err = FError.z_error err

-- `From<zrpc::zrpcresult::ZRPCError>`
abbrev pub from_zrpc_error : String → FError
from_zrpc_error err = FError.z_error err

-- `From<Box<bincode::ErrorKind>>`, and the same for `serde_cbor::Error`
abbrev pub from_codec_error : String → FError
from_codec_error err = FError.serialization_deserialization_error err
