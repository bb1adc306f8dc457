-- ===== src/Abi/Structs/Files.antt =====
-- The tables of abi.py: the parameter blocks of the Universal Interfaces' file system.
use mathlib.Core.List.{[], ◌∷◌}
use cwhost.Abi.{u8, u16, s16, u32, s32, u64, s64, ptr, s8, mac68k, scalar, array, Struct, struct}
use cwhost.Abi.Structs.{fields}

abbrev pub io_param : Struct
io_param = struct "IOParam" mac68k (
    fields (
      ("qLink", scalar ptr)
      ∷ ("qType", scalar s16)
      ∷ ("ioTrap", scalar s16)
      ∷ ("ioCmdAddr", scalar ptr)
      ∷ ("ioCompletion", scalar ptr)
      ∷ ("ioResult", scalar s16)
      ∷ ("ioNamePtr", scalar ptr)
      ∷ ("ioVRefNum", scalar s16)
      ∷ ("ioRefNum", scalar s16)
      ∷ ("ioVersNum", scalar s8)
      ∷ ("ioPermssn", scalar s8)
      ∷ ("ioMisc", scalar ptr)
      ∷ ("ioBuffer", scalar ptr)
      ∷ ("ioReqCount", scalar s32)
      ∷ ("ioActCount", scalar s32)
      ∷ ("ioPosMode", scalar s16)
      ∷ ("ioPosOffset", scalar s32)
      ∷ []))

abbrev pub hfile_param : Struct
hfile_param = struct "HFileParam" mac68k (
    fields (
      ("qLink", scalar ptr)
      ∷ ("qType", scalar s16)
      ∷ ("ioTrap", scalar s16)
      ∷ ("ioCmdAddr", scalar ptr)
      ∷ ("ioCompletion", scalar ptr)
      ∷ ("ioResult", scalar s16)
      ∷ ("ioNamePtr", scalar ptr)
      ∷ ("ioVRefNum", scalar s16)
      ∷ ("ioFRefNum", scalar s16)
      ∷ ("ioFVersNum", scalar s8)
      ∷ ("ioPermssn", scalar s8)
      ∷ ("ioFDirIndex", scalar s16)
      ∷ ("ioFlAttrib", scalar s8)
      ∷ ("ioFlVersNum", scalar s8)
      ∷ ("ioFlFndrInfo", array u8 16)
      ∷ ("ioDirID", scalar s32)
      ∷ ("ioFlStBlk", scalar u16)
      ∷ ("ioFlLgLen", scalar s32)
      ∷ ("ioFlPyLen", scalar s32)
      ∷ ("ioFlRStBlk", scalar u16)
      ∷ ("ioFlRLgLen", scalar s32)
      ∷ ("ioFlRPyLen", scalar s32)
      ∷ ("ioFlCrDat", scalar u32)
      ∷ ("ioFlMdDat", scalar u32)
      ∷ []))

abbrev pub cinfo_pb_rec_h_file_info : Struct
cinfo_pb_rec_h_file_info = struct "CInfoPBRec_hFileInfo" mac68k (
    fields (
      ("qLink", scalar ptr)
      ∷ ("qType", scalar s16)
      ∷ ("ioTrap", scalar s16)
      ∷ ("ioCmdAddr", scalar ptr)
      ∷ ("ioCompletion", scalar ptr)
      ∷ ("ioResult", scalar s16)
      ∷ ("ioNamePtr", scalar ptr)
      ∷ ("ioVRefNum", scalar s16)
      ∷ ("ioFRefNum", scalar s16)
      ∷ ("ioFVersNum", scalar s8)
      ∷ ("ioPermssn", scalar s8)
      ∷ ("ioFDirIndex", scalar s16)
      ∷ ("ioFlAttrib", scalar s8)
      ∷ ("ioFlVersNum", scalar s8)
      ∷ ("ioFlFndrInfo", array u8 16)
      ∷ ("ioDirID", scalar s32)
      ∷ ("ioFlStBlk", scalar u16)
      ∷ ("ioFlLgLen", scalar s32)
      ∷ ("ioFlPyLen", scalar s32)
      ∷ ("ioFlRStBlk", scalar u16)
      ∷ ("ioFlRLgLen", scalar s32)
      ∷ ("ioFlRPyLen", scalar s32)
      ∷ ("ioFlCrDat", scalar u32)
      ∷ ("ioFlMdDat", scalar u32)
      ∷ ("ioFlBkDat", scalar u32)
      ∷ ("ioFlXFndrInfo", array u8 16)
      ∷ ("ioFlParID", scalar s32)
      ∷ ("ioFlClpSiz", scalar s32)
      ∷ []))

abbrev pub cinfo_pb_rec_dir_info : Struct
cinfo_pb_rec_dir_info = struct "CInfoPBRec_dirInfo" mac68k (
    fields (
      ("qLink", scalar ptr)
      ∷ ("qType", scalar s16)
      ∷ ("ioTrap", scalar s16)
      ∷ ("ioCmdAddr", scalar ptr)
      ∷ ("ioCompletion", scalar ptr)
      ∷ ("ioResult", scalar s16)
      ∷ ("ioNamePtr", scalar ptr)
      ∷ ("ioVRefNum", scalar s16)
      ∷ ("ioFRefNum", scalar s16)
      ∷ ("ioFVersNum", scalar s8)
      ∷ ("ioPermssn", scalar s8)
      ∷ ("ioFDirIndex", scalar s16)
      ∷ ("ioFlAttrib", scalar s8)
      ∷ ("ioFlVersNum", scalar s8)
      ∷ ("ioDrUsrWds", array u8 16)
      ∷ ("ioDrDirID", scalar s32)
      ∷ ("ioDrNmFls", scalar u16)
      ∷ ("reservedDirectoryFields", array u8 18)
      ∷ ("ioDrCrDat", scalar u32)
      ∷ ("ioDrMdDat", scalar u32)
      ∷ ("ioDrBkDat", scalar u32)
      ∷ ("ioDrFndrInfo", array u8 16)
      ∷ ("ioDrParID", scalar s32)
      ∷ []))

abbrev pub hvolume_param : Struct
hvolume_param = struct "HVolumeParam" mac68k (
    fields (
      ("qLink", scalar ptr)
      ∷ ("qType", scalar s16)
      ∷ ("ioTrap", scalar s16)
      ∷ ("ioCmdAddr", scalar ptr)
      ∷ ("ioCompletion", scalar ptr)
      ∷ ("ioResult", scalar s16)
      ∷ ("ioNamePtr", scalar ptr)
      ∷ ("ioVRefNum", scalar s16)
      ∷ ("ioFRefNum", scalar s16)
      ∷ ("ioFVersNum", scalar s8)
      ∷ ("ioVolIndex", scalar s16)
      ∷ ("ioVCrDate", scalar u32)
      ∷ ("ioVLsMod", scalar u32)
      ∷ ("ioVAtrb", scalar s16)
      ∷ ("ioVNmFls", scalar u16)
      ∷ ("ioVBitMap", scalar u16)
      ∷ ("ioAllocPtr", scalar u16)
      ∷ ("ioVNmAlBlks", scalar u16)
      ∷ ("ioVAlBlkSiz", scalar u32)
      ∷ ("ioVClpSiz", scalar u32)
      ∷ ("ioAlBlSt", scalar u16)
      ∷ ("ioVNxtCNID", scalar u32)
      ∷ ("ioVFrBlk", scalar u16)
      ∷ ("ioVSigWord", scalar u16)
      ∷ ("ioVDrvInfo", scalar s16)
      ∷ ("ioVDRefNum", scalar s16)
      ∷ ("ioVFSID", scalar s16)
      ∷ ("ioVBkUp", scalar u32)
      ∷ ("ioVSeqNum", scalar s16)
      ∷ ("ioVWrCnt", scalar u32)
      ∷ ("ioVFilCnt", scalar u32)
      ∷ ("ioVDirCnt", scalar u32)
      ∷ ("ioVFndrInfo", array u8 32)
      ∷ []))

abbrev pub fs_ref_param : Struct
fs_ref_param = struct "FSRefParam" mac68k (
    fields (
      ("qLink", scalar ptr)
      ∷ ("qType", scalar s16)
      ∷ ("ioTrap", scalar s16)
      ∷ ("ioCmdAddr", scalar ptr)
      ∷ ("ioCompletion", scalar ptr)
      ∷ ("ioResult", scalar s16)
      ∷ ("ioNamePtr", scalar ptr)
      ∷ ("ioVRefNum", scalar s16)
      ∷ ("reserved1", scalar u16)
      ∷ ("reserved2", scalar u8)
      ∷ ("reserved3", scalar u8)
      ∷ ("ref", scalar ptr)
      ∷ ("whichInfo", scalar u32)
      ∷ ("catInfo", scalar ptr)
      ∷ ("nameLength", scalar u32)
      ∷ ("name", scalar ptr)
      ∷ ("ioDirID", scalar s32)
      ∷ ("spec", scalar ptr)
      ∷ ("parentRef", scalar ptr)
      ∷ ("newRef", scalar ptr)
      ∷ ("textEncodingHint", scalar u32)
      ∷ ("outName", scalar ptr)
      ∷ []))

abbrev pub fs_fork_io_param : Struct
fs_fork_io_param = struct "FSForkIOParam" mac68k (
    fields (
      ("qLink", scalar ptr)
      ∷ ("qType", scalar s16)
      ∷ ("ioTrap", scalar s16)
      ∷ ("ioCmdAddr", scalar ptr)
      ∷ ("ioCompletion", scalar ptr)
      ∷ ("ioResult", scalar s16)
      ∷ ("reserved1", scalar ptr)
      ∷ ("reserved2", scalar u16)
      ∷ ("forkRefNum", scalar s16)
      ∷ ("reserved3", scalar u8)
      ∷ ("permissions", scalar u8)
      ∷ ("ref", scalar ptr)
      ∷ ("buffer", scalar ptr)
      ∷ ("requestCount", scalar u32)
      ∷ ("actualCount", scalar u32)
      ∷ ("positionMode", scalar u16)
      ∷ ("positionOffset", scalar s64)
      ∷ ("allocationFlags", scalar u16)
      ∷ ("allocationAmount", scalar u64)
      ∷ ("forkNameLength", scalar u32)
      ∷ ("forkName", scalar ptr)
      ∷ ("forkIterator", array u8 16)
      ∷ ("outForkName", scalar ptr)
      ∷ []))

abbrev pub fs_catalog_info : Struct
fs_catalog_info = struct "FSCatalogInfo" mac68k (
    fields (
      ("nodeFlags", scalar u16)
      ∷ ("volume", scalar s16)
      ∷ ("parentDirID", scalar u32)
      ∷ ("nodeID", scalar u32)
      ∷ ("sharingFlags", scalar u8)
      ∷ ("userPrivileges", scalar u8)
      ∷ ("reserved1", scalar u8)
      ∷ ("reserved2", scalar u8)
      ∷ ("createDate", array u8 8)
      ∷ ("contentModDate", array u8 8)
      ∷ ("attributeModDate", array u8 8)
      ∷ ("accessDate", array u8 8)
      ∷ ("backupDate", array u8 8)
      ∷ ("permissions", array u8 16)
      ∷ ("finderInfo", array u8 16)
      ∷ ("extFinderInfo", array u8 16)
      ∷ ("dataLogicalSize", scalar u64)
      ∷ ("dataPhysicalSize", scalar u64)
      ∷ ("rsrcLogicalSize", scalar u64)
      ∷ ("rsrcPhysicalSize", scalar u64)
      ∷ ("valence", scalar u32)
      ∷ ("textEncodingHint", scalar u32)
      ∷ []))
